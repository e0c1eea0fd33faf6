-- ===== src/AsyncLoop/Recount.antt =====
-- frontrun/async_scheduler.py: the account of tasks where one task's status changes.
use frontrun.Prelude.{
  ℕ, zero, suc, ◌+◌, ◌<◌, ◌≡◌, ◌≢◌, refl, sym, ap, ◌∙◌, true, false, ◌||◌, some, List, [], ◌∷◌,
  nat_eq, nat_beq_iff, ◌==◌, arith, Bool-cases, inl, inr, length, ltb, is_some, get_elem?, drop,
  add, contains,
}
use mathlib.Core.Path.{subst}
use frontrun.AsyncLoop.{Loop, skip_done, turn_of, is_turn, should_proceed, on_proceed}
use frontrun.AsyncLoop.System.{Status, running, waiting, ended, notified, notify_all, set_status}
use frontrun.AsyncLoop.Counts.{is_waiting, is_ended, total, total-set, total-notify}

-- The account of tasks: the count of waiting ones, and the done ones.
pub record IsCounted (n : ℕ) (l : Loop) (st : ℕ → Status) : Type 0 where
  pub tasks : l.num_tasks ≡ n
  pub waiters : total is_waiting st n ≡ l.waiting_count
  pub enders : total is_ended st n ≡ length l.tasks_done
  pub done : (u : ℕ) → contains u l.tasks_done ≡ true → st u ≡ ended
  pub not_done : (u : ℕ) → st u ≡ ended → contains u l.tasks_done ≡ true

-- A task that waits without a notification does not have its turn.
abbrev pub NoneMissed : Loop → (ℕ → Status) → Type 0
NoneMissed l st =
    (u : ℕ) → st u ≡ waiting false → (l.finished || is_some l.error) ≡ false → turn_of l ≢ some u

-- The skipped entries are skipped but once.
skip_done-twice :
    (done xs : List ℕ) (i : ℕ) (s : List ℕ)
    → drop i s ≡ xs
    → skip_done done (drop (skip_done done xs i) s) (skip_done done xs i) ≡ skip_done done xs i
unfolding skip_done
skip_done-twice done [] i s e = rw e
skip_done-twice done (x ∷ xs) i s e = elim (Bool-cases (contains x done)) [
  | inl d ↦ rw d (skip_done-twice done xs (suc i) s (drop-suc i s x xs e))
  | inr d ↦ rw (d, e, d)
]
  where
    drop-suc : (i : ℕ) (s : List ℕ) (x : ℕ) (xs : List ℕ) → drop i s ≡ x ∷ xs → drop (suc i) s ≡ xs
    drop-suc zero [] x xs e = cc e
    drop-suc zero (y ∷ s) x xs e = cc e
    drop-suc (suc i) [] x xs e = cc e
    drop-suc (suc i) (y ∷ s) x xs e = drop-suc i s x xs e

pub turn_of-should_proceed : (t : ℕ) (l : Loop) → turn_of (should_proceed t l).1 ≡ turn_of l
unfolding should_proceed
turn_of-should_proceed t l =
    ap (get_elem? l.schedule)
      (skip_done-twice l.tasks_done (drop l.index l.schedule) l.index l.schedule refl)

-- One task's status changes, neither from nor to the end.
pub recount :
    (n : ℕ) (l l' : Loop) (st : ℕ → Status) (t : ℕ) (y : Status)
    → IsCounted n l st
    → t < n
    → l'.num_tasks ≡ l.num_tasks
    → l'.tasks_done ≡ l.tasks_done
    → l'.waiting_count + is_waiting (st t) ≡ l.waiting_count + is_waiting y
    → is_ended (st t) ≡ 0
    → is_ended y ≡ 0
    → IsCounted n l' (set_status t y st)
recount n l l' st t y c lt tasks done_eq count x0 y0 = record {
  tasks = tasks ∙ c.tasks;
  waiters = omega (arith, total-set is_waiting st t y n lt, c.waiters);
  enders = omega (arith, total-set is_ended st t y n lt, c.enders, ap length done_eq);
  done = λ u e. by u (c.done u (subst (λ d. contains u d ≡ true) done_eq e));
  not_done = λ u e. subst (λ d. contains u d ≡ true) (sym done_eq) (back u e);
}
  where
    by : (u : ℕ) → st u ≡ ended → set_status t y st u ≡ ended
    by u e = elim (Bool-cases (u == t)) [
      | inl same ↦
          absurd
            (omega (arith, x0, ap is_ended e, ap (λ k. is_ended (st k)) ((nat_beq_iff u t).0 same)))
      | inr other ↦ rw other e
    ]

    back : (u : ℕ) → set_status t y st u ≡ ended → contains u l.tasks_done ≡ true
    back u e = elim (Bool-cases (u == t)) [
      | inl same ↦ absurd (omega (arith, y0, ap is_ended (sym (at_task same) ∙ e)))
      | inr other ↦ c.not_done u (sym (at_other other) ∙ e)
    ]
      where
        at_task : (u == t) ≡ true → set_status t y st u ≡ y
        at_task b = rw b

        at_other : (u == t) ≡ false → set_status t y st u ≡ st u
        at_other b = rw b

ended_before : (x : Status) → notified x ≡ ended → x ≡ ended
ended_before running e = e
ended_before (waiting b) e = cc e
ended_before ended e = refl

pub recount_notified :
    (n : ℕ) (l : Loop) (st : ℕ → Status) → IsCounted n l st → IsCounted n l (notify_all st)
recount_notified n l st c = record {
  tasks = c.tasks;
  waiters = (total-notify st n).0 ∙ c.waiters;
  enders = (total-notify st n).1 ∙ c.enders;
  done = λ u e. ap notified (c.done u e);
  not_done = λ u e. c.not_done u (ended_before (st u) e);
}

-- Whoever was notified missed nothing.
pub none_waits : (l : Loop) (st : ℕ → Status) → NoneMissed l (notify_all st)
none_waits l st u e = absurd (by (st u) e)
  where
    by : (x : Status) → notified x ≡ waiting false → ⊥
    by running e = cc e
    by (waiting b) e = cc e
    by ended e = cc e

pub length-add : (t : ℕ) (xs : List ℕ) → contains t xs ≡ false → length (add t xs) ≡ suc (length xs)
unfolding contains add
length-add t [] h = refl
length-add t (x ∷ xs) h = ground (arith, length-add t xs)

-- Both together.
pub record Inv (n : ℕ) (l : Loop) (st : ℕ → Status) : Type 0 where
  pub counted : IsCounted n l st
  pub none_missed : NoneMissed l st

-- A task in its own code, with another count of waiting tasks.
pub set_running :
    (n : ℕ) (l l' : Loop) (st : ℕ → Status) (t : ℕ)
    → IsCounted n l st
    → t < n
    → l'.num_tasks ≡ l.num_tasks
    → l'.tasks_done ≡ l.tasks_done
    → l'.waiting_count + is_waiting (st t) ≡ l.waiting_count
    → is_ended (st t) ≡ 0
    → IsCounted n l' (set_status t running st)
set_running n l l' st t c lt tasks done_eq count x0 =
    recount n l l' st t running c lt tasks done_eq (omega (arith, count)) x0 refl

pub runs :
    (st : ℕ → Status) (t : ℕ) → st t ≡ running → (is_waiting (st t) ≡ 0) × (is_ended (st t) ≡ 0)
runs st t e = (ap is_waiting e, ap is_ended e)

-- Where a task that runs is set running, what waits is as before.
pub set_status-NoneMissed :
    (l : Loop) (st : ℕ → Status) (t : ℕ) → NoneMissed l st → NoneMissed l (set_status t running st)
set_status-NoneMissed l st t h u e = elim (Bool-cases (u == t)) [
  | inl same ↦ absurd (running_waiting (sym (at_task same) ∙ e))
  | inr other ↦ h u (sym (at_other other) ∙ e)
]
  where
    running_waiting : running ≡ waiting false → ⊥
    running_waiting e = cc e

    at_task : (u == t) ≡ true → set_status t running st u ≡ running
    at_task b = rw b

    at_other : (u == t) ≡ false → set_status t running st u ≡ st u
    at_other b = rw b

pub on_proceed-same :
    (l : Loop)
    → ((on_proceed l).num_tasks ≡ l.num_tasks)
      × ((on_proceed l).tasks_done ≡ l.tasks_done)
      × ((on_proceed l).waiting_count ≡ l.waiting_count)
unfolding on_proceed
on_proceed-same l = elim (Bool-cases (ltb l.index (length l.schedule))) [
  | inl e ↦ rw e (refl, refl, refl)
  | inr e ↦ rw e (refl, refl, refl)
]

-- A task that does not proceed waits for another's turn.
pub park-NoneMissed :
    (l l' : Loop) (st : ℕ → Status) (t : ℕ)
    → is_turn t (turn_of l) ≡ false
    → turn_of l' ≡ turn_of l
    → ((l'.finished || is_some l'.error) ≡ false → (l.finished || is_some l.error) ≡ false)
    → NoneMissed l st
    → NoneMissed l' (set_status t (waiting false) st)
park-NoneMissed l l' st t other_turn same_turn going_before h u e going at =
    elim (Bool-cases (u == t)) [
      | inl same ↦ absurd (ground (arith, other_turn, ap (is_turn t) (sym same_turn ∙ at), same))
      | inr other ↦ h u (sym (at_other other) ∙ e) (going_before going) (sym same_turn ∙ at)
    ]
  where
    at_other : (u == t) ≡ false → set_status t (waiting false) st u ≡ st u
    at_other b = rw b
