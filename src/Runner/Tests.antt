-- ===== src/Runner/Tests.antt =====
-- Two threads, of which the first waits for a turn of the second until the wait times out.
use frontrun.Prelude.{ℕ, ◌≡◌, refl, true, some, List, [], ◌∷◌, nat_eq, ◌==◌, contains}
use frontrun.Opcode.{
  init, deadlock, parked, wait_for_turn, round, ensure, extend_schedule, time_out,
}
use frontrun.Runner.{
  returned, raised, Runner, unpatched, state, opcode, trace, enter, leave, run_raises,
  run_with_schedule,
}
use frontrun.Runner.Runs.{Phase, fresh, inside, gone, set_phase, started, Run}
use frontrun.Runner.Account.{IsAccount}
use frontrun.Runner.Outcomes.{IsOutcome, Run-IsAccount}

abbrev first : List ℕ
first = 1 ∷ []

abbrev begun : Runner
begun = enter true true 1 (enter true true 0 (started (init first 2 20)))

abbrev stuck : Runner
stuck = record begun { scheduler = (time_out (begun.scheduler)).1 }

abbrev phases : ℕ → Phase
phases = set_phase 1 inside (set_phase 0 inside (λ t. fresh))

waiting : Run true true first 2 20 phases [] stuck
unfolding wait_for_turn round ensure extend_schedule trace init enter contains
waiting =
    Run.times_out 0
      (Run.takes_turn 0 opcode 3 parked (Run.enters 1 (Run.enters 0 Run.start refl) refl) refl refl
        refl)
      refl

-- Thread 0 returns without control, and thread 1 raises the exception 7.
abbrev ended : Runner
ended = leave true true 1 (raised 7) (leave true true 0 returned stuck)

over :
    Run true true first 2 20
      (set_phase 1 gone (set_phase 0 gone phases))
      ((0, returned) ∷ (1, raised 7) ∷ [])
      ended
over = Run.leaves 1 (raised 7) (Run.leaves 0 returned waiting refl) refl

Run-IsAccount_example :
    IsOutcome
      (λ e. e == 3)
      5
      ((1, 7) ∷ [])
      (run_with_schedule {S = ℕ} (λ e. e == 3) true (state 5) ended unpatched).0
    × ((run_with_schedule {S = ℕ} (λ e. e == 3) true (state 5) ended unpatched).1 ≡ unpatched)
    × IsAccount true true
        (set_phase 1 gone (set_phase 0 gone phases))
        ((0, returned) ∷ (1, raised 7) ∷ [])
        ended
Run-IsAccount_example = Run-IsAccount true true (λ e. e == 3) 5 over

-- The scheduler's error of a deadlock is not raised.
unraised : (run_with_schedule {S = ℕ} (λ e. e == 3) true (state 5) stuck unpatched).0 ≡ state 5
unfolding run_with_schedule run_raises enter
unraised = refl

has_deadlock : stuck.scheduler.error ≡ some (deadlock 1 0 1)
unfolding time_out contains enter init
has_deadlock = refl
