-- ===== src/Runner.antt =====
-- frontrun/bytecode.py, BytecodeShuffler and run_with_schedule: what a thread does before and after
-- its function, and what comes of the exceptions. An exception is a number, and the threads' functions
-- come from outside.
pub mod Runs
pub mod Account
pub mod Steps
pub mod Outcomes
mod Tests
use frontrun.Prelude.{
  ℕ, Bool, true, false, ◌&&◌, ◌||◌, not, Option, none, some, List, [], ◌∷◌, nat_eq, ◌==◌,
  if◌then◌else◌, length, put, is_some,
}
use frontrun.Opcode.{Scheduler, Failure, reported, mark_done, report_error}

-- How a thread's function ends: it returns, raises SchedulerAbort or another Exception, or raises what
-- is no Exception, such as KeyboardInterrupt.
pub data Exit : Type 0 where
  returned aborted interrupted : Exit
  raised : ℕ → Exit

-- What is set for one thread: the context of the cooperative primitives, the reporter of I/O and the
-- trace function.
pub record Local : Type 0 where
  pub managed : Bool
  pub reporting : Bool
  pub traced : Bool

abbrev pub bare : Local
bare = record { managed = false; reporting = false; traced = false }

pub record Runner : Type 0 where
  pub scheduler : Scheduler
  pub errors : List (ℕ × ℕ)
  pub locals : ℕ → Local

abbrev pub set_local : ℕ → Local → Runner → Runner
set_local t l r = record r { locals = λ u. if t == u then l else r.locals u }

-- What a trace function sees, with whether the file is the user's; code that `exec` made has the
-- file of its caller beside it.
pub data TraceEvent : Type 0 where
  call : (user_file : Bool) → TraceEvent
  dynamic_call : (user_file caller_user_file : Bool) → TraceEvent
  opcode other : TraceEvent

-- It gives tracing up, goes on, turns the opcodes of the frame on, or calls `wait_for_turn` first.
pub data Traced : Type 0 where
  given_up kept opcodes_on waits : Traced

abbrev pub trace_call : Bool → Traced
trace_call true = opcodes_on
trace_call false = given_up

abbrev pub trace_event : TraceEvent → Traced
trace_event (call user_file) = trace_call user_file
trace_event (dynamic_call user_file caller_user_file) = trace_call (user_file && caller_user_file)
trace_event opcode = waits
trace_event other = kept

unfoldable pub trace : Scheduler → TraceEvent → Traced
trace s event = if s.finished || is_some s.error then given_up else trace_event event

-- `except SchedulerAbort: pass`, `except Exception as e: …`
unfoldable pub handle_exit : ℕ → Exit → Runner → Runner
handle_exit t (raised e) r = record r {
  errors = put t e r.errors;
  scheduler = report_error (reported e) r.scheduler;
}
handle_exit t returned r = r
handle_exit t aborted r = r
handle_exit t interrupted r = r

module _ (settrace detect_io : Bool) where
  -- The part of `_run_thread_settrace` or `_run_thread_monitoring` before the function.
  unfoldable pub enter : ℕ → Runner → Runner
  enter t r =
      set_local t
        (record {
          managed = true;
          reporting = (r.locals t).reporting || detect_io;
          traced = (r.locals t).traced || settrace;
        })
        r

  -- `finally: …`
  unfoldable pub clean_up : ℕ → Runner → Runner
  clean_up t r =
      set_local t
        (record {
          managed = false;
          reporting = (r.locals t).reporting && not detect_io;
          traced = (r.locals t).traced && not settrace;
        })
        r

  -- The part after the function.
  unfoldable pub leave : ℕ → Exit → Runner → Runner
  leave t exit r =
      let r1 = clean_up t (handle_exit t exit r) in
      record r1 { scheduler = mark_done t r1.scheduler }

-- `run`, after the joins: the threads that are alive are told to stop.
unfoldable pub stop_alive : (timeout_error : ℕ) → List ℕ → Runner → Runner
stop_alive timeout_error [] r = r
stop_alive timeout_error (t ∷ ts) r = record r {
  scheduler = record (r.scheduler) { error = some (reported timeout_error) };
}

-- `raise list(self.errors.values())[0]`, if there is one
unfoldable pub run_raises : Runner → Option ℕ
run_raises r = elim r.errors [ [] ↦ none | x ∷ xs ↦ some x.1 ]

-- The primitives and modules that are patched, and the runner's own flags.
pub record Patches : Type 0 where
  pub graph : Bool
  pub locks : Bool
  pub io : Bool
  pub lock_patched : Bool
  pub io_patched : Bool

abbrev pub unpatched : Patches
unpatched = record {
  graph = false;
  locks = false;
  io = false;
  lock_patched = false;
  io_patched = false;
}

abbrev pub patch_locks : Patches → Patches
patch_locks p = record p { graph = true; locks = true; lock_patched = true }

abbrev pub unpatch_locks : Patches → Patches
unpatch_locks p =
    if p.lock_patched then record p { graph = false; locks = false; lock_patched = false } else p

abbrev pub patch_io : Bool → Patches → Patches
patch_io detect_io p = if detect_io then record p { io = true; io_patched = true } else p

abbrev pub unpatch_io : Patches → Patches
unpatch_io p = if p.io_patched then record p { io = false; io_patched = false } else p

-- The state that `setup` made, or the exception that goes through.
pub data Outcome (S : Type 0) : Type 0 where
  state : S → Outcome S
  exception : ℕ → Outcome S

-- `except TimeoutError`
abbrev pub after_run : {S : Type 0} → (is_timeout : ℕ → Bool) → S → Option ℕ → Outcome S
after_run is_timeout s none = state s
after_run is_timeout s (some e) = if is_timeout e then state s else exception e

-- `setup` raises or returns a state, and `run` ends with the runner as it is then.
abbrev pub set_up : {S : Type 0} → (is_timeout : ℕ → Bool) → Outcome S → Runner → Outcome S
set_up is_timeout (exception e) r = exception e
set_up is_timeout (state s) r = after_run is_timeout s (run_raises r)

unfoldable pub run_with_schedule :
    {S : Type 0}
    → (is_timeout : ℕ → Bool) (detect_io : Bool) (setup : Outcome S) (ended : Runner) → Patches
    → Outcome S × Patches
run_with_schedule is_timeout detect_io setup ended p =
    (set_up is_timeout setup ended, unpatch_locks (unpatch_io (patch_io detect_io (patch_locks p))))
