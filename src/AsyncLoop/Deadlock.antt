-- ===== src/AsyncLoop/Deadlock.antt =====
-- frontrun/async_scheduler.py, the all-tasks-waiting detection of `pause`.
use frontrun.Prelude.{
  by_test, ℕ, zero, suc, ◌+◌, ◌-◌, ◌≤◌, ◌<◌, ◌≡◌, refl, sym, ap, ◌∙◌, Bool, true, false, ◌||◌, ◌&&◌,
  some, List, [], ◌∷◌, nat_eq, nat_beq_iff, ◌==◌, if◌then◌else◌, arith, Bool-cases, Option-cases,
  inl, inr, ◌⊎◌, All, leb, ltb, is_some, get_elem?, drop, contains,
}
use mathlib.Core.Path.{subst}
use frontrun.AsyncLoop.{
  Loop, Answer, returned, proceeded, deadlocked, skip_done, live_index, turn_of, is_turn,
  should_proceed, alive, pause, wake, decide,
}
use frontrun.AsyncLoop.System.{Status, running, waiting, ended, set_status, Run}
use frontrun.AsyncLoop.Counts.{total-all, total-two}
use frontrun.AsyncLoop.Invariant.{Run-Inv, leave-Inv}
use frontrun.AsyncLoop.Recount.{Inv, set_status-NoneMissed}

-- The entry whose turn it is names no done task.
skip_done-live :
    (done xs : List ℕ) (i : ℕ) (s : List ℕ) (x : ℕ)
    → drop i s ≡ xs
    → get_elem? s (skip_done done xs i) ≡ some x
    → contains x done ≡ false
unfolding skip_done
skip_done-live done [] i s x e at = absurd (by i s e at)
  where
    by : (i : ℕ) (s : List ℕ) → drop i s ≡ [] → get_elem? s i ≡ some x → ⊥
    by zero [] e at = cc at
    by zero (y ∷ s) e at = cc e
    by (suc i) [] e at = cc at
    by (suc i) (y ∷ s) e at = by i s e at
skip_done-live done (y ∷ xs) i s x e at = elim (Bool-cases (contains y done)) [
  | inl d ↦
      skip_done-live done xs (suc i) s x (later i s e)
        (subst (λ b. get_elem? s (if b then skip_done done xs (suc i) else i) ≡ some x) d at)
  | inr d ↦
      subst (λ z. contains z done ≡ false)
        (here i s e
          (subst (λ b. get_elem? s (if b then skip_done done xs (suc i) else i) ≡ some x) d at))
        d
]
  where
    later : (i : ℕ) (s : List ℕ) → drop i s ≡ y ∷ xs → drop (suc i) s ≡ xs
    later zero [] e = cc e
    later zero (z ∷ s) e = cc e
    later (suc i) [] e = cc e
    later (suc i) (z ∷ s) e = later i s e

    here : (i : ℕ) (s : List ℕ) → drop i s ≡ y ∷ xs → get_elem? s i ≡ some x → y ≡ x
    here zero [] e at = cc e
    here zero (z ∷ s) e at = cc (e, at)
    here (suc i) [] e at = cc e
    here (suc i) (z ∷ s) e at = here i s e at

All-get_elem? : (n : ℕ) (s : List ℕ) (i x : ℕ) → All (λ y. y < n) s → get_elem? s i ≡ some x → x < n
All-get_elem? n [] i x h e = cc e
All-get_elem? n (y ∷ s) zero x h e = subst (λ z. z < n) (some_inj e) h.0
  where
    some_inj : {a b : ℕ} → some a ≡ some b → a ≡ b
    some_inj e = cc e
All-get_elem? n (y ∷ s) (suc i) x h e = All-get_elem? n s i x h.1 e

-- A report comes where it is another task's turn and at most this one runs.
report_when :
    (t : ℕ) (l : Loop)
    → (pause t l).0 ≡ deadlocked
    → ((l.finished || is_some l.error) ≡ false)
      × (is_turn t (turn_of l) ≡ false)
      × (alive l ≤ l.waiting_count + 1)
unfolding pause should_proceed
report_when t l =
    by_test P (l.finished || is_some l.error) (λ over e. absurd (neither e))
      (λ going. by going (is_turn t (turn_of l)) refl)
  where
    P : Answer × Loop → Type 0
    P x =
        x.0 ≡ deadlocked
        → ((l.finished || is_some l.error) ≡ false)
          × (is_turn t (turn_of l) ≡ false)
          × (alive l ≤ l.waiting_count + 1)

    neither : returned ≡ deadlocked → ⊥
    neither e = cc e

    by :
        (l.finished || is_some l.error) ≡ false
        → (b : Bool) → is_turn t (turn_of l) ≡ b
        → P (decide t (b, (should_proceed t l).1))
    by going true turn = λ e. absurd (cc e)
    by going false other =
        by_test P (leb (alive l) (l.waiting_count + 1) && ltb 0 (alive l))
          (λ all_wait e. (going, other, ground (arith, all_wait))) (λ some_run e. absurd (cc e))

-- The task whose turn it is proceeds at once.
turn-proceeds :
    (x : ℕ) (l : Loop)
    → (l.finished || is_some l.error) ≡ false
    → turn_of l ≡ some x
    → (wake x l).0 ≡ proceeded
unfolding wake pause should_proceed
turn-proceeds x l going turn =
    by_test (λ (a : Answer × Loop). a.0 ≡ proceeded) (l.finished || is_some l.error)
      (λ over. absurd (cc (over, going)))
      (λ e.
        ap
          (λ b.
            (decide x
              (b, (should_proceed x (record l { waiting_count = l.waiting_count - 1 })).1)).0)
          (ap (is_turn x) turn ∙ (nat_beq_iff x x).1 refl))

-- What a report of a deadlock means, where the invariant holds.
false_alarm :
    (n : ℕ) (l : Loop) (st : ℕ → Status) (t : ℕ)
    → Inv n l st
    → t < n
    → st t ≡ running
    → All (λ y. y < n) l.schedule
    → (pause t l).0 ≡ deadlocked
    → (x : ℕ) × ((x == t) ≡ false)
      × (st x ≡ waiting true)
      × ((l.finished || is_some l.error) ≡ false)
      × (turn_of l ≡ some x)
false_alarm n l st t v lt e tasks report =
    let (going, other, few) = report_when t l report in
    elim (Option-cases (turn_of l)) [
      | inl no_turn ↦ absurd (cc (other, ap (is_turn t) no_turn))
      | inr (x, turn) ↦
          let other_x : (x == t) ≡ false = sym (ap (is_turn t) turn) ∙ other in
          (x, other_x, by going few x turn other_x (st x) refl, going, turn)
    ]
  where
    by :
        (l.finished || is_some l.error) ≡ false
        → alive l ≤ l.waiting_count + 1
        → (x : ℕ) → turn_of l ≡ some x
        → (x == t) ≡ false
        → (y : Status) → st x ≡ y
        → st x ≡ waiting true
    by going few x turn other_x running at = absurd (
        omega (
          arith,
          total-all st n,
          total-two st t x n lt (All-get_elem? n l.schedule (live_index l) x tasks turn) other_x e
              at,
          v.counted.waiters,
          v.counted.enders,
          v.counted.tasks,
          few,
        ))
    by going few x turn other_x (waiting true) at = at
    by going few x turn other_x (waiting false) at = absurd (v.none_missed x at going turn)
    by going few x turn other_x ended at = absurd (
        cc (
          v.counted.not_done x at,
          skip_done-live l.tasks_done (drop l.index l.schedule) l.index l.schedule x refl turn,
        ))

-- In every run under a schedule that names tasks only, a report of a deadlock by a call of `pause`,
-- be it new or woken, is false: another task was notified, has its turn, and proceeds as soon as it
-- is woken.
pub Run-false_alarm :
    {schedule : List ℕ} {n : ℕ} {l : Loop} {st : ℕ → Status} (t : ℕ)
    → Run schedule n l st
    → t < n
    → All (λ y. y < n) l.schedule
    → ((st t ≡ running) × ((pause t l).0 ≡ deadlocked))
      ⊎ ((st t ≡ waiting true) × ((wake t l).0 ≡ deadlocked))
    → (x : ℕ) × ((x == t) ≡ false) × (st x ≡ waiting true) × ((wake x l).0 ≡ proceeded)
unfolding wake
Run-false_alarm {n = n} {l} {st} t r lt tasks (inl (e, report)) =
    let (x, other, waits, going, turn) = false_alarm n l st t (Run-Inv r) lt e tasks report in
    (x, other, waits, turn-proceeds x l going turn)
Run-false_alarm {n = n} {l} {st} t r lt tasks (inr (e, report)) =
    let v = Run-Inv r in
    let back : Inv n (record l { waiting_count = l.waiting_count - 1 }) (set_status t running st) =
      record {
        counted = leave-Inv n l st t true l.error lt e v.counted;
        none_missed = set_status-NoneMissed l st t v.none_missed;
      } in
    let (x, other, waits, going, turn) =
      false_alarm n (record l { waiting_count = l.waiting_count - 1 }) (set_status t running st) t
        back lt (rw ((nat_beq_iff t t).1 refl)) tasks report in
    (
      x,
      other,
      subst (λ b. (if b then running else st x) ≡ waiting true) other waits,
      turn-proceeds x l going turn,
    )
