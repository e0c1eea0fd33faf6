-- ===== src/Runner/Runs.antt =====
-- frontrun/bytecode.py, BytecodeShuffler.run: threads in any order, each entering and leaving once.
use frontrun.Prelude.{ℕ, Bool, ◌≡◌, some, List, [], ◌∷◌, ◌++◌, nat_eq, ◌==◌, if◌then◌else◌}
use frontrun.Opcode.{Scheduler, Round, init, wait_for_turn, time_out}
use frontrun.Runner.{Exit, Runner, bare, TraceEvent, waits, trace, enter, leave, stop_alive}

-- Where a thread is.
pub data Phase : Type 0 where
  fresh inside gone : Phase

abbrev pub set_phase : ℕ → Phase → (ℕ → Phase) → ℕ → Phase
set_phase t p phases u = if t == u then p else phases u

abbrev pub started : Scheduler → Runner
started s = record { scheduler = s; errors = []; locals = λ t. bare }

module _ (settrace detect_io : Bool) where
  -- The log holds how each thread that is gone has ended, in that order.
  pub data Run (first : List ℕ) (n ops : ℕ) : (ℕ → Phase) → List (ℕ × Exit) → Runner → Type 0 where
    start : Run first n ops (λ t. fresh) [] (started (init first n ops))
    enters :
        {phases : ℕ → Phase} {log : List (ℕ × Exit)} {r : Runner} (t : ℕ)
        → Run first n ops phases log r
        → phases t ≡ fresh
        → Run first n ops (set_phase t inside phases) log (enter settrace detect_io t r)
    takes_turn :
        {phases : ℕ → Phase} {log : List (ℕ × Exit)} {r : Runner} {s : Scheduler} (t : ℕ)
        (event : TraceEvent) (fuel : ℕ) (answer : Round)
        → Run first n ops phases log r
        → phases t ≡ inside
        → trace (r.scheduler) event ≡ waits
        → wait_for_turn fuel t (r.scheduler) ≡ some (answer, s)
        → Run first n ops phases log (record r { scheduler = s })
    waits_again :
        {phases : ℕ → Phase} {log : List (ℕ × Exit)} {r : Runner} {s : Scheduler} (t fuel : ℕ)
        (answer : Round)
        → Run first n ops phases log r
        → phases t ≡ inside
        → wait_for_turn fuel t (r.scheduler) ≡ some (answer, s)
        → Run first n ops phases log (record r { scheduler = s })
    times_out :
        {phases : ℕ → Phase} {log : List (ℕ × Exit)} {r : Runner} (t : ℕ)
        → Run first n ops phases log r
        → phases t ≡ inside
        → Run first n ops phases log (record r { scheduler = (time_out (r.scheduler)).1 })
    leaves :
        {phases : ℕ → Phase} {log : List (ℕ × Exit)} {r : Runner} (t : ℕ) (exit : Exit)
        → Run first n ops phases log r
        → phases t ≡ inside
        → Run first n ops
            (set_phase t gone phases)
            (log ++ ((t, exit) ∷ []))
            (leave settrace detect_io t exit r)
    stops :
        {phases : ℕ → Phase} {log : List (ℕ × Exit)} {r : Runner} (timeout_error : ℕ)
        (alive : List ℕ)
        → Run first n ops phases log r
        → Run first n ops phases log (stop_alive timeout_error alive r)
