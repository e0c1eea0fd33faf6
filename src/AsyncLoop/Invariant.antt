-- ===== src/AsyncLoop/Invariant.antt =====
-- frontrun/async_scheduler.py: what holds in every run of tasks.
use frontrun.Prelude.{
  either_way, by_test, ◌&&◌, ℕ, zero, suc, ◌+◌, ◌-◌, ◌<◌, ◌≡◌, refl, sym, ap, ◌∙◌, Bool, true,
  false, ◌||◌, Option, List, nat_eq, nat_beq_iff, ◌==◌, arith, Bool-cases, inl, inr, leb, ltb,
  is_some, add, contains, contains-add,
}
use mathlib.Core.Path.{subst}
use frontrun.AsyncLoop.{
  Failure, Loop, Answer, turn_of, is_turn, should_proceed, on_proceed, alive, pause, wake,
  wait_or_report, decide, time_out, mark_done, report_error, handle_all_waiting_deadlock,
}
use frontrun.AsyncLoop.System.{Status, running, waiting, ended, notify_all, set_status, after, Run}
use frontrun.AsyncLoop.Counts.{is_running, is_waiting, is_ended, total, total-set}
use frontrun.AsyncLoop.Recount.{
  Inv, IsCounted, turn_of-should_proceed, recount, recount_notified, none_waits, length-add,
  set_running, runs, set_status-NoneMissed, on_proceed-same, park-NoneMissed,
}

-- The branches of `pause`, where `l1` is what `should_proceed` leaves.
turn-Inv :
    (n : ℕ) (l l1 : Loop) (st : ℕ → Status) (t : ℕ)
    → t < n
    → st t ≡ running
    → l1.num_tasks ≡ l.num_tasks
    → l1.tasks_done ≡ l.tasks_done
    → l1.waiting_count ≡ l.waiting_count
    → Inv n l st
    → Inv n (on_proceed l1) (notify_all (set_status t running st))
turn-Inv n l l1 st t lt e tasks done_eq count v =
    let (a, b, c) = on_proceed-same l1 in
    record {
      counted = recount_notified n (on_proceed l1) (set_status t running st) (
          set_running n l (on_proceed l1) st t v.counted lt (a ∙ tasks) (b ∙ done_eq)
            (omega (arith, c, count, (runs st t e).0)) (runs st t e).1);
      none_missed = none_waits (on_proceed l1) (set_status t running st);
    }

wait-Inv :
    (n : ℕ) (l l1 : Loop) (st : ℕ → Status) (t : ℕ)
    → t < n
    → st t ≡ running
    → l1.num_tasks ≡ l.num_tasks
    → l1.tasks_done ≡ l.tasks_done
    → l1.waiting_count ≡ l.waiting_count
    → turn_of l1 ≡ turn_of l
    → is_turn t (turn_of l) ≡ false
    → (l.finished || is_some l.error) ≡ false
    → Inv n l st
    → Inv n (wait_or_report t l1).1 (after (wait_or_report t l1).0 t st)
unfolding handle_all_waiting_deadlock
wait-Inv n l l1 st t lt e tasks done_eq count same_turn other going v =
    either_way (λ (x : Answer × Loop). Inv n x.1 (after x.0 t st))
      (leb (alive l1) (l1.waiting_count + 1) && ltb 0 (alive l1))
      (record {
        counted = recount_notified n reported_loop (set_status t running st) (
            set_running n l reported_loop st t v.counted lt tasks done_eq
              (omega (arith, count, (runs st t e).0)) (runs st t e).1);
        none_missed = none_waits reported_loop (set_status t running st);
      })
      (record {
        counted =
            recount n l parked_loop st t (waiting false) v.counted lt tasks done_eq
              (omega (arith, count, (runs st t e).0)) (runs st t e).1 refl;
        none_missed = park-NoneMissed l parked_loop st t other same_turn (λ h. going) v.none_missed;
      })
  where
    reported_loop : Loop
    reported_loop = handle_all_waiting_deadlock t l1

    parked_loop : Loop
    parked_loop = record l1 { waiting_count = l1.waiting_count + 1 }

pause-Inv :
    (n : ℕ) (l : Loop) (st : ℕ → Status) (t : ℕ)
    → t < n
    → st t ≡ running
    → Inv n l st
    → Inv n (pause t l).1 (after (pause t l).0 t st)
unfolding pause should_proceed
pause-Inv n l st t lt e v =
    by_test P (l.finished || is_some l.error)
      (λ over. record {
        counted =
            set_running n l l st t v.counted lt refl refl (omega (arith, (runs st t e).0))
              (runs st t e).1;
        none_missed = set_status-NoneMissed l st t v.none_missed;
      })
      (λ going. by (is_turn t (turn_of l)) refl going)
  where
    P : Answer × Loop → Type 0
    P x = Inv n x.1 (after x.0 t st)

    l1 : Loop
    l1 = (should_proceed t l).1

    by :
        (b : Bool)
        → is_turn t (turn_of l) ≡ b
        → (l.finished || is_some l.error) ≡ false
        → P (decide t (b, l1))
    by true turn going = turn-Inv n l l1 st t lt e refl refl refl v
    by false other going =
        wait-Inv n l l1 st t lt e refl refl refl (turn_of-should_proceed t l) other going v

-- A task that leaves its wait.
pub leave-Inv :
    (n : ℕ) (l : Loop) (st : ℕ → Status) (t : ℕ) (b : Bool) (e : Option Failure)
    → t < n
    → st t ≡ waiting b
    → IsCounted n l st
    → IsCounted n
        (record l { error = e; waiting_count = l.waiting_count - 1 })
        (set_status t running st)
leave-Inv n l st t b e lt w c =
    set_running n l (record l { error = e; waiting_count = l.waiting_count - 1 }) st t c lt refl
      refl (omega (arith, ap is_waiting w, c.waiters, total-set is_waiting st t running n lt))
      (ap is_ended w)

wake-Inv :
    (n : ℕ) (l : Loop) (st : ℕ → Status) (t : ℕ)
    → t < n
    → st t ≡ waiting true
    → Inv n l st
    → Inv n (wake t l).1 (after (wake t l).0 t (set_status t running st))
unfolding wake
wake-Inv n l st t lt w v =
    pause-Inv n (record l { waiting_count = l.waiting_count - 1 }) (set_status t running st) t lt
      (rw ((nat_beq_iff t t).1 refl))
      (record {
        counted = leave-Inv n l st t true l.error lt w v.counted;
        none_missed = set_status-NoneMissed l st t v.none_missed;
      })

mark_done-Inv :
    (n : ℕ) (l : Loop) (st : ℕ → Status) (t : ℕ)
    → t < n
    → st t ≡ running
    → IsCounted n l st
    → IsCounted n (mark_done t l) (set_status t ended st)
unfolding mark_done
mark_done-Inv n l st t lt e c = record {
  tasks = c.tasks;
  waiters = omega (arith, total-set is_waiting st t ended n lt, (runs st t e).0, c.waiters);
  enders = omega (
    arith,
    total-set is_ended st t ended n lt,
    (runs st t e).1,
    c.enders,
    length-add t l.tasks_done fresh,
  );
  done = λ u h. by u (c.done u) h;
  not_done = λ u h. back u h;
}
  where
    fresh : contains t l.tasks_done ≡ false
    fresh = elim (Bool-cases (contains t l.tasks_done)) [
      | inl h ↦ absurd (omega (arith, ap is_running e, ap is_running (c.done t h)))
      | inr h ↦ h
    ]

    by :
        (u : ℕ)
        → (contains u l.tasks_done ≡ true → st u ≡ ended)
        → contains u (add t l.tasks_done) ≡ true
        → set_status t ended st u ≡ ended
    by u old h = elim (Bool-cases (u == t)) [
      | inl same ↦ rw same
      | inr other ↦
          rw other (
            old
              (ground (arith, h, contains-add t u l.tasks_done, nat_beq_iff t u, nat_beq_iff u t)))
    ]

    back : (u : ℕ) → set_status t ended st u ≡ ended → contains u (add t l.tasks_done) ≡ true
    back u h = elim (Bool-cases (u == t)) [
      | inl same ↦ ground (arith, contains-add t u l.tasks_done, nat_beq_iff t u, nat_beq_iff u t)
      | inr other ↦
          ground (arith, contains-add t u l.tasks_done, c.not_done u (sym (at_other other) ∙ h))
    ]
      where
        at_other : (u == t) ≡ false → set_status t ended st u ≡ st u
        at_other b = rw b

total-start : (f : Status → ℕ) (n : ℕ) → f running ≡ 0 → total f (λ t. running) n ≡ 0
total-start f zero h = refl
total-start f (suc n) h = omega (arith, h, total-start f n h)

pub Run-Inv :
    {schedule : List ℕ} {n : ℕ} {l : Loop} {st : ℕ → Status} → Run schedule n l st → Inv n l st
unfolding time_out report_error contains
Run-Inv {n = n} Run.start = record {
  counted = record {
    tasks = refl;
    waiters = total-start is_waiting n refl;
    enders = total-start is_ended n refl;
    done = λ u e. cc e;
    not_done = λ u e. cc e;
  };
  none_missed = λ u e. cc e;
}
Run-Inv {n = n} (Run.paused {l} {st = st} t lt e ran r) =
    subst (λ (x : Answer × Loop). Inv n x.1 (after x.0 t st)) ran
      (pause-Inv n l st t lt e (Run-Inv r))
Run-Inv {n = n} (Run.woken {l} {st = st} t lt e ran r) =
    subst (λ (x : Answer × Loop). Inv n x.1 (after x.0 t (set_status t running st))) ran
      (wake-Inv n l st t lt e (Run-Inv r))
Run-Inv {n = n} (Run.expired {l} {st} {b} t lt e r) = record {
  counted =
      recount_notified n (time_out t l) (set_status t running st)
        (leave-Inv n l st t b (time_out t l).error lt e (Run-Inv r).counted);
  none_missed = none_waits (time_out t l) (set_status t running st);
}
Run-Inv {n = n} (Run.done {l} {st} t lt e r) = record {
  counted =
      recount_notified n (mark_done t l) (set_status t ended st)
        (mark_done-Inv n l st t lt e (Run-Inv r).counted);
  none_missed = none_waits (mark_done t l) (set_status t ended st);
}
Run-Inv {n = n} (Run.failed {l} {st} e r) = record {
  counted = recount_notified n (report_error e l) st (
      either_way (λ x. IsCounted n x st) (is_some l.error) (Run-Inv r).counted
        (let c = (Run-Inv r).counted in
          record {
            tasks = c.tasks;
            waiters = c.waiters;
            enders = c.enders;
            done = c.done;
            not_done = c.not_done;
          }));
  none_missed = none_waits (report_error e l) st;
}
