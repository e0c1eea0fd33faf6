-- ===== src/Dpor.antt =====
-- frontrun/dpor.py, DporScheduler: threads take turns as the engine decides. A body under the
-- condition's lock is one step, and a wait for the condition ends one.
pub mod Sync
pub mod Log
pub mod Runs
pub mod Beside
pub mod Settle
pub mod Turns
pub mod Apart
pub mod Waiters
pub mod Flow
pub mod Io
pub mod Delivery
mod Tests
use frontrun.Prelude.{
  ℕ, zero, suc, ◌+◌, ◌-◌, ◌≤◌, Bool, true, false, ◌&&◌, ◌||◌, not, Option, none, some, List, [],
  ◌∷◌, ◌++◌, map, String, string_eq, nat_eq, ◌==◌, if◌then◌else◌, length, leb, is_some, lookup, put,
  delete, add, contains,
}
use frontrun.Shadow.{Shadow, Report, Runtime, Frame}
use frontrun.Shadow.Instruction.{Op}
use frontrun.Shadow.Process.{process_opcode}
use frontrun.PreloadBridge.{IoEvent, Entry, Bridge, drain}

-- What the engine and the execution are called with. They are not Python, and their answers are
-- functions of the calls made so far.
pub data Call : Type 0 where
  scheduled : (decision : Option ℕ) → Call
  access : (thread : ℕ) → Report → Call
  io : (thread key : ℕ) (kind : String) → Call
  sync : (thread : ℕ) (event : String) (obj : ℕ) → Call
  block unblock finish : (thread : ℕ) → Call

-- `runnable_threads` and `schedule`
pub record Engine : Type 0 where
  pub runnable : List Call → List ℕ
  pub schedule : List Call → Option ℕ

-- `_dpor_tls` of one thread; what is missing stands as 0 or [].
pub record Local : Type 0 where
  pub pending_io : List (ℕ × String)
  pub lock_depth : ℕ
  pub shadow_stacks : List (ℕ × Shadow)

pub data Failure : Type 0 where
  timed_out : (thread : ℕ) (current : Option ℕ) → Failure
  reported : ℕ → Failure

pub record Dpor : Type 0 where
  pub num_threads : ℕ
  pub finished : Bool
  pub error : Option Failure
  pub threads_done : List ℕ
  pub current_thread : Option ℕ
  pub lock_waiters : List (ℕ × List ℕ)
  pub has_recorder : Bool
  -- what `record_io` was told: thread, resource and kind
  pub recorded : List (ℕ × String × String)
  pub bridge : Option Bridge
  pub locals : ℕ → Local
  -- the calls of the engine and the execution, in order
  pub log : List Call

abbrev pub tell : Call → Dpor → Dpor
tell c s = record s { log = s.log ++ (c ∷ []) }

abbrev pub tell_all : List Call → Dpor → Dpor
tell_all cs s = record s { log = s.log ++ cs }

abbrev pub set_local : ℕ → Local → Dpor → Dpor
set_local t l s = record s { locals = λ u. if u == t then l else s.locals u }

-- `_current_thread == thread_id`
abbrev pub is_thread : ℕ → Option ℕ → Bool
is_thread t none = false
is_thread t (some u) = u == t

abbrev pub in_done : List ℕ → Option ℕ → Bool
in_done done none = false
in_done done (some u) = contains u done

-- What the code under trace is at: the frame's identity and its instruction.
pub record Place : Type 0 where
  pub frame_id : ℕ
  pub runtime : Runtime
  pub frame : Frame
  pub op : Op

abbrev pub empty_stack : Shadow
empty_stack = record { stack = []; markers = []; reports = []; notes = [] }

-- A thread's stack of a frame, a new one where it is missing.
unfoldable pub get_shadow_stack : ℕ → Local → Shadow
get_shadow_stack frame_id l = elim (lookup frame_id l.shadow_stacks) [
  | some sh ↦ sh
  | none ↦ empty_stack
]

unfoldable pub remove_shadow_stack : ℕ → Local → Local
remove_shadow_stack frame_id l = record l { shadow_stacks = delete frame_id l.shadow_stacks }

-- One instruction of a thread: its reports go to the engine. `none` is an exception of the handler.
abbrev pub processed : ℕ → ℕ → Dpor → Option Shadow → Option Dpor
processed t frame_id s none = none
processed t frame_id s (some sh) = some (
    set_local t
      (record (s.locals t) {
        shadow_stacks = put frame_id (record sh { reports = [] }) (s.locals t).shadow_stacks;
      })
      (tell_all (map (access t) sh.reports) s))

unfoldable pub process : ℕ → Option Place → Dpor → Option Dpor
process t none s = some s
process t (some p) s = processed t p.frame_id s (
    process_opcode p.runtime p.frame s.has_recorder p.op (get_shadow_stack p.frame_id (s.locals t)))

pub data Answer : Type 0 where
  returned : Bool → Answer
  parked again raised : Answer

abbrev pub start_with : Option ℕ × Dpor → Dpor
start_with (d, s) = record s { current_thread = d }

-- The next thread is current, and without one the run is finished.
abbrev pub hand_over : Option ℕ × Dpor → Dpor
hand_over (d, s) = record s {
  current_thread = d;
  finished = if is_some d then s.finished else true;
}

abbrev pub after_done : Option ℕ × Dpor → Dpor
after_done (d, s) = record s {
  current_thread = d;
  finished =
      if not (is_some d) && leb s.num_threads (length s.threads_done) then true else s.finished;
}

unfoldable pub report_error : ℕ → Dpor → Dpor
report_error e s = if is_some s.error then s else record s { error = some (reported e) }

-- The constructor, up to the first decision.
abbrev pub blank : ℕ → Bool → Option Bridge → Dpor
blank n recorder bridge = record {
  num_threads = n;
  finished = false;
  error = none;
  threads_done = [];
  current_thread = none;
  lock_waiters = [];
  has_recorder = recorder;
  recorded = [];
  bridge = bridge;
  locals = λ t. record { pending_io = []; lock_depth = 0; shadow_stacks = [] };
  log = [];
}

module _ (engine : Engine) where
  unfoldable pub schedule_next : Dpor → Option ℕ × Dpor
  schedule_next s = elim (engine.runnable s.log) [
    | [] ↦ (none, s)
    | t ∷ ts ↦ (engine.schedule s.log, tell (scheduled (engine.schedule s.log)) s)
  ]

  abbrev pub after_process : Dpor → Option Dpor → Answer × Dpor
  after_process s none = (raised, s)
  after_process s (some s') = (returned true, hand_over (schedule_next s'))

  -- One round of the loop of `_report_and_wait`.
  unfoldable pub look : ℕ → Option Place → Dpor → Answer × Dpor
  look t place s =
      if s.finished || is_some s.error
      then (returned false, s)
      else if is_thread t s.current_thread
      then after_process s (process t place s)
      else (parked, s)

  -- After a wait that timed out.
  unfoldable pub time_out : ℕ → Dpor → Answer × Dpor
  time_out t s =
      if in_done s.threads_done s.current_thread
      then (again, hand_over (schedule_next s))
      else (returned false, record s { error = some (timed_out t s.current_thread) })

  unfoldable pub mark_done : ℕ → Dpor → Dpor
  mark_done t s =
      let told = tell (finish t) (record s { threads_done = add t s.threads_done }) in
      if is_thread t s.current_thread then after_done (schedule_next told) else told

  unfoldable pub init : ℕ → Bool → Option Bridge → Dpor
  init n recorder bridge = start_with (schedule_next (blank n recorder bridge))
