-- ===== src/Markers/Runs.antt =====
-- Runs of the coordinator: any threads call any of its methods in any order.
use frontrun.Prelude.{
  Bool, true, false, ◌&&◌, List, [], ◌∷◌, ◌++◌, string_eq, if◌then◌else◌, nat_beq,
}
use frontrun.Markers.{
  Step, Failure, Coordinator, Outcome, returned, blocked, parked, index_error, init, wait_for_turn,
  time_out, report_error,
}

-- The markers passed in turn: such a call takes a step of the schedule.
abbrev pub note : Coordinator → Coordinator → Step → List Step → List Step
note c c' s log = if nat_beq c'.current_step c.current_step then log else log ++ (s ∷ [])

-- A call that is over lets its marker pass, also where it only waits for the execution lock.
abbrev pub passes : Outcome → Bool
passes returned = true
passes blocked = true
passes parked = false
passes index_error = false

-- The markers passed out of turn: such a call returns and takes no step of the schedule.
abbrev pub note_late : Outcome → Coordinator → Coordinator → Step → List Step → List Step
note_late o c c' s late =
    if passes o && nat_beq c'.current_step c.current_step then late ++ (s ∷ []) else late

abbrev pub late_after : Coordinator → Step → Outcome × Coordinator → List Step → List Step
late_after c s w late = note_late w.0 c w.1 s late

-- `s` is the caller's name and marker.
pub data Move
    : Coordinator → List Step → List Step → Coordinator → List Step → List Step → Type 0 where
  turn :
      {c : Coordinator} {log late : List Step} (s : Step) (reacquire : Bool)
      → Move c log late
          (wait_for_turn s.execution_name s.marker_name reacquire c).1
          (note c (wait_for_turn s.execution_name s.marker_name reacquire c).1 s log)
          (late_after c s (wait_for_turn s.execution_name s.marker_name reacquire c) late)
  timeout :
      {c : Coordinator} {log late : List Step} (s : Step) (reacquire : Bool)
      → Move c log late (time_out reacquire c).1 log (late_after c s (time_out reacquire c) late)
  fail :
      {c : Coordinator} {log late : List Step} (e : Failure)
      → Move c log late (report_error e c) log late
  -- `_execution_lock` is taken and released by the trace function and the thread wrapper.
  lock :
      {c : Coordinator} {log late : List Step} (held : Bool)
      → Move c log late (record c { execution_lock = held }) log late

-- The lists are the markers passed in turn and those passed out of turn, each in order.
pub data Run (steps : List Step) : Coordinator → List Step → List Step → Type 0 where
  here : Run steps (init steps) [] []
  next :
      {c c' : Coordinator} {log log' late late' : List Step}
      → Run steps c log late
      → Move c log late c' log' late'
      → Run steps c' log' late'
