-- ===== src/Runner/Outcomes.antt =====
-- frontrun/bytecode.py, run_with_schedule: what comes of a run of threads.
use frontrun.Prelude.{
  ℕ, ◌≡◌, refl, ap, Bool, true, false, List, [], ◌∷◌, if◌then◌else◌, nat_eq, lookup, contains, inl,
}
use mathlib.Core.Path.{subst}
use frontrun.Opcode.{Scheduler, init}
use frontrun.Runner.{
  Exit, Runner, run_raises, unpatched, patch_locks, unpatch_locks, patch_io, unpatch_io, state,
  exception, Outcome, after_run, run_with_schedule,
}
use frontrun.Runner.Runs.{Phase, fresh, started, Run}
use frontrun.Runner.Account.{raised_of, first_raised, IsAccount}
use frontrun.Runner.Steps.{
  time_out-IsKept, scheduler-IsAccount, turn-IsAccount, enter-IsAccount, leave-IsAccount,
  stop-IsAccount,
}

new_done : (first : List ℕ) (n ops : ℕ) → (init first n ops).threads_done ≡ []
unfolding init
new_done first n ops = refl

-- What the caller gets of the exceptions of the threads: the first one decides.
pub data IsOutcome {S : Type 0} (is_timeout : ℕ → Bool) (x : S)
    : List (ℕ × ℕ) → Outcome S → Type 0 where
  fine : IsOutcome is_timeout x [] (state x)
  timed_out :
      {t e : ℕ} {later : List (ℕ × ℕ)}
      → is_timeout e ≡ true
      → IsOutcome is_timeout x ((t, e) ∷ later) (state x)
  let_through :
      {t e : ℕ} {later : List (ℕ × ℕ)}
      → is_timeout e ≡ false
      → IsOutcome is_timeout x ((t, e) ∷ later) (exception e)

after_run-IsOutcome :
    {S : Type 0} (is_timeout : ℕ → Bool) (x : S) (errors : List (ℕ × ℕ))
    → IsOutcome is_timeout x errors (after_run is_timeout x (first_raised errors))
after_run-IsOutcome is_timeout x [] = IsOutcome.fine
after_run-IsOutcome is_timeout x ((t, e) ∷ later) = by (is_timeout e) refl
  where
    by :
        (b : Bool)
        → is_timeout e ≡ b
        → IsOutcome is_timeout x ((t, e) ∷ later) (if b then state x else exception e)
    by true h = IsOutcome.timed_out h
    by false h = IsOutcome.let_through h

module _ (settrace detect_io : Bool) where
  started-IsAccount :
      (s : Scheduler)
      → s.threads_done ≡ []
      → IsAccount settrace detect_io (λ t. fresh) [] (started s)
  unfolding lookup contains
  started-IsAccount s e = record {
    errors = refl;
    logged = λ t _. refl;
    done = λ t. ap (contains t) e;
    locals = λ t. refl;
    told = inl refl;
  }

  Run-kept :
      {first : List ℕ} {n ops : ℕ} {phases : ℕ → Phase} {log : List (ℕ × Exit)} {r : Runner}
      → Run settrace detect_io first n ops phases log r
      → IsAccount settrace detect_io phases log r
  Run-kept {first} {n} {ops} Run.start = started-IsAccount (init first n ops) (new_done first n ops)
  Run-kept (Run.enters {phases} {log} {r} t run p) =
      enter-IsAccount settrace detect_io phases log r (Run-kept run) t p
  Run-kept (Run.takes_turn {phases} {log} {r} {s} t event fuel answer run p w e) =
      turn-IsAccount settrace detect_io phases log r (Run-kept run) fuel t answer s e
  Run-kept (Run.waits_again {phases} {log} {r} {s} t fuel answer run p e) =
      turn-IsAccount settrace detect_io phases log r (Run-kept run) fuel t answer s e
  Run-kept (Run.times_out {phases} {log} {r} t run p) =
      scheduler-IsAccount settrace detect_io phases log r (Run-kept run) _
        (time_out-IsKept (r.scheduler)).0 (time_out-IsKept (r.scheduler)).1
  Run-kept (Run.leaves {phases} {log} {r} t exit run p) =
      leave-IsAccount settrace detect_io phases log r (Run-kept run) t exit p
  Run-kept (Run.stops {phases} {log} {r} timeout_error alive run) =
      stop-IsAccount settrace detect_io phases log r (Run-kept run) 0 timeout_error alive

  -- In every run of threads, each entering and leaving once, the call of run_with_schedule ends as
  -- the first thread decides that raised, of those that ended by an exception other than
  -- SchedulerAbort: it lets that exception through if it is no TimeoutError, and returns the state
  -- if it is one or there is none, whatever the scheduler's own error is. It takes all its patches
  -- back; the errors are those exceptions in order, the scheduler has an error if there is one, the
  -- done threads are those that are gone, and only threads inside have anything set.
  pub Run-IsAccount :
      {first : List ℕ} {n ops : ℕ} {phases : ℕ → Phase} {log : List (ℕ × Exit)} {r : Runner}
      {S : Type 0} (is_timeout : ℕ → Bool) (x : S)
      → Run settrace detect_io first n ops phases log r
      → IsOutcome is_timeout x
          (raised_of log)
          (run_with_schedule is_timeout detect_io (state x) r unpatched).0
        × ((run_with_schedule is_timeout detect_io (state x) r unpatched).1 ≡ unpatched)
        × IsAccount settrace detect_io phases log r
  unfolding run_with_schedule run_raises
  Run-IsAccount {log} {r} is_timeout x run = (
    subst (λ l. IsOutcome is_timeout x l (after_run is_timeout x (run_raises r)))
        (Run-kept run).errors (after_run-IsOutcome is_timeout x r.errors),
    taken_back detect_io,
    Run-kept run,
  )
    where
      taken_back :
          (io : Bool) → unpatch_locks (unpatch_io (patch_io io (patch_locks unpatched))) ≡ unpatched
      taken_back true = refl
      taken_back false = refl
