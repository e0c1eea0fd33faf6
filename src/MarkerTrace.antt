-- ===== src/MarkerTrace.antt =====
-- frontrun/async_trace_markers.py, the trace function of AsyncTraceExecutor: at which lines a task
-- waits for its turn. The waits themselves are those of Markers.
pub mod Once
pub mod Walk
mod Tests
use frontrun.Prelude.{
  ℕ, zero, suc, ◌+◌, Bool, true, false, ◌&&◌, not, Option, none, some, List, [], ◌∷◌, ◌++◌, String,
  string_eq, nat_eq, ◌==◌, if◌then◌else◌, contains, add, is_some,
}
use frontrun.Registry.{Registry, empty, Location, location_eq, scan_frame, get_marker}

-- One thread's trace function: the registry and the places that it has processed.
pub record Tracer : Type 0 where
  pub registry : Registry
  pub processed : List Location

-- The marker at a place, if its name is not empty and the place is not processed.
abbrev pub named : Option String → Option String
named none = none
named (some name) = if name == "" then none else some name

abbrev pub unprocessed : Option String → Bool → Option String
unprocessed name true = none
unprocessed name false = name

abbrev pub fresh_marker : Location → Tracer → Option String
fresh_marker (file, n) t =
    unprocessed (named (get_marker file n t.registry)) (contains (file, n) t.processed)

-- The wait for a marker's turn, and the place is processed.
abbrev pub Waited : Type 0
Waited = Option (Location × String) × Tracer

abbrev pub wait_at : Location → String → Tracer → Waited
wait_at at name t = (some (at, name), record t { processed = add at t.processed })

abbrev pub take_marker : Location → Option String → Tracer → Waited → Waited
take_marker at none t otherwise = otherwise
take_marker at (some name) t otherwise = wait_at at name t

-- The line before, for a marker on a line of its own; there is none before line 1.
unfoldable pub previous_line : String → ℕ → Tracer → Waited
previous_line file zero t = (none, t)
previous_line file (suc zero) t = (none, t)
previous_line file (suc (suc n)) t =
    take_marker (file, suc n) (fresh_marker (file, suc n) t) t (none, t)

-- What a thread's lines wait for, in order, and the tracer in the end.
abbrev pub Walked : Type 0
Walked = List (Location × String) × Tracer

abbrev pub then_waits : Option (Location × String) → Walked → Walked
then_waits none w = w
then_waits (some wait) (waits, t) = (wait ∷ waits, t)

-- A line that the thread runs in a frame; whether the wait there, if there is one, ends in an error;
-- and whether the interpreter leaves the trace function out, where it may.
pub record LineEvent : Type 0 where
  pub frame : ℕ
  pub place : Location
  pub error : Bool
  pub left_out : Bool

abbrev pub turned_off : ℕ → Bool → List ℕ → List ℕ
turned_off frame true off = off
turned_off frame false off = frame ∷ off

module _ (read : String → Option (List String)) (search_marker : String → Option String) where
  abbrev pub scanned : String → Tracer → Tracer
  scanned file t = record t { registry = scan_frame read search_marker file t.registry }

  -- The markers that a 'line' event looks for, with the wait.
  unfoldable pub check_line : Location → Tracer → Waited
  check_line (file, n) t =
      take_marker (file, n) (fresh_marker (file, n) (scanned file t)) (scanned file t)
        (previous_line file n (scanned file t))

  -- The trace function at a 'line' event, and whether it returns itself or None. `error` says whether
  -- the wait raises, or finds the coordinator with an error; the exception is then reported there.
  unfoldable pub trace_line : (error : Bool) → Location → Tracer → Waited × Bool
  trace_line error at t = (check_line at t, not (is_some (check_line at t).0 && error))

  -- The lines that one thread runs, in order. `off` holds the frames for which the function returned
  -- None, and the interpreter may leave it out there from then on.
  abbrev pub trace_lines : List ℕ → List LineEvent → Tracer → Walked
  trace_lines off [] t = ([], t)
  trace_lines off (e ∷ events) t = elim (contains e.frame off && e.left_out) [
    | true ↦ trace_lines off events t
    | false ↦ then_waits (trace_line e.error e.place t).0.0 (
        trace_lines (turned_off e.frame (trace_line e.error e.place t).1 off) events
          (trace_line e.error e.place t).0.1)
  ]

abbrev pub fresh_tracer : Tracer
fresh_tracer = record { registry = empty; processed = [] }
