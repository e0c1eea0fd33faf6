-- ===== src/Markers.antt =====
-- frontrun/common.py, Step and Schedule, and frontrun/trace_markers.py, ThreadCoordinator: threads
-- pass markers in the order of a schedule. Each method runs under the condition's lock.
pub mod Runs
pub mod Order
mod Tests
use frontrun.Prelude.{
  ℕ, zero, suc, ◌+◌, Bool, true, false, ◌||◌, ◌&&◌, Option, none, some, List, [], ◌∷◌, ◌++◌, not,
  String, string_eq, nat_eq, Eq, ◌==◌, if◌then◌else◌, ltb, leb, length, get_elem?, is_some, drop,
}

pub record Step : Type 0 where
  pub execution_name : String
  pub marker_name : String

-- `Schedule(steps)`: none stands for the ValueError on an empty list.
pub make_schedule : List Step → Option (List Step)
make_schedule [] = none
make_schedule (s ∷ ss) = some (s ∷ ss)

-- The TimeoutError of a stall, with the values that its message shows, or an exception reported.
pub data Failure : Type 0 where
  stall : Step → (step size : ℕ) → Failure
  reported : ℕ → Failure

pub record Coordinator : Type 0 where
  pub steps : List Step
  pub current_step : ℕ
  pub completed : Bool
  pub error : Option Failure
  pub execution_lock : Bool

unfoldable pub init : List Step → Coordinator
init steps = record {
  steps = steps;
  current_step = 0;
  completed = false;
  error = none;
  execution_lock = false;
}

-- How a call of `wait_for_turn` goes on: it returns, it blocks on the execution lock while it
-- returns, it waits, or it ends by an IndexError.
pub data Outcome : Type 0 where
  returned blocked parked index_error : Outcome

-- `if _reacquire_execution_lock: self._execution_lock.acquire()`, and the return
unfoldable pub give_back : Bool → Coordinator → Outcome × Coordinator
give_back reacquire c =
    if reacquire
    then (if c.execution_lock then (blocked, c) else (returned, record c { execution_lock = true }))
    else (returned, c)

abbrev pub matches : Step → String → String → Bool
matches s name marker = (s.execution_name == name) && (s.marker_name == marker)

abbrev pub advance : Coordinator → Coordinator
advance c = record c { current_step = c.current_step + 1 }

abbrev pub decide_turn : String → String → Bool → Coordinator → Option Step → Outcome × Coordinator
decide_turn name marker reacquire c none = (index_error, c)
decide_turn name marker reacquire c (some s) =
    if matches s name marker then give_back reacquire (advance c) else (parked, c)

-- One round of the loop; every round ends by a return or by the wait.
unfoldable pub wait_for_turn : String → String → Bool → Coordinator → Outcome × Coordinator
wait_for_turn name marker reacquire c =
    if c.completed || is_some c.error
    then give_back reacquire c
    else if leb (length c.steps) c.current_step
    then give_back reacquire (record c { completed = true })
    else decide_turn name marker reacquire c (get_elem? c.steps c.current_step)

-- The wait ends by its timeout: `expected = self.schedule.steps[self.current_step]` and what
-- follows.
unfoldable pub time_out : Bool → Coordinator → Outcome × Coordinator
time_out reacquire c = elim (get_elem? c.steps c.current_step) [
  | none ↦ (index_error, c)
  | some s ↦
      give_back reacquire (record c { error = some (stall s c.current_step (length c.steps)) })
]

-- The latest error is kept.
unfoldable pub report_error : Failure → Coordinator → Coordinator
report_error e c = record c { error = some e }

unfoldable pub is_finished : Coordinator → Bool
is_finished c = c.completed || is_some c.error

-- How `TraceExecutor.wait` ends: it returns, or raises the TimeoutError on living threads, the
-- first thread's error, or the TimeoutError on steps that were never reached.
pub data Verdict : Type 0 where
  ok : Verdict
  still_alive : List String → Verdict
  thread_error : ℕ → Verdict
  incomplete : List Step → Verdict

-- The threads that are alive after the joins, and the errors of the threads in order.
unfoldable pub wait : List String → List (String × ℕ) → Coordinator → Verdict
wait (t ∷ ts) errors c = still_alive (t ∷ ts)
wait [] ((name, e) ∷ errors) c = thread_error e
wait [] [] c =
    if ltb 0 c.current_step && (ltb c.current_step (length c.steps) && not c.completed)
    then incomplete (drop c.current_step c.steps)
    else ok
