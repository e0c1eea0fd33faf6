-- ===== src/MarkerTrace/Tests.antt =====
-- The trace function on a small file, a loop over two lines.
use frontrun.Prelude.{
  ℕ, true, false, nat_eq, ◌≤◌, ◌≡◌, refl, ◌&&◌, Option, none, some, List, [], ◌∷◌, String,
  string_eq, ◌==◌, if◌then◌else◌, contains, add, lookup, put,
}
use frontrun.Registry.{location_eq, scan_frame, get_marker, empty, scan_lines}
use frontrun.MarkerTrace.{
  LineEvent, fresh_tracer, previous_line, check_line, trace_line, trace_lines,
}
use frontrun.MarkerTrace.Once.{times, once, has_marker}
use frontrun.MarkerTrace.Walk.{is_calm, places, trace_lines-waits_once}

abbrev read : String → Option (List String)
read f =
    if f == "a.py" then some ("# frontrun: go" ∷ "x = 1" ∷ "y = 2  # frontrun: stop" ∷ []) else none

abbrev search : String → Option String
search line =
    if line == "# frontrun: go"
    then some "go"
    else if line == "y = 2  # frontrun: stop"
    then some "stop"
    else none

-- The line of a frame, without an error.
abbrev run_line : ℕ → LineEvent
run_line n = record { frame = 1; place = ("a.py", n); error = false; left_out = false }

abbrev events : List LineEvent
events = run_line 2 ∷ run_line 3 ∷ run_line 2 ∷ run_line 3 ∷ []

trace_lines-waits_once_example :
    (times ("a.py", 3) (trace_lines read search [] events fresh_tracer).0
      ≤ once (has_marker read search ("a.py", 3)))
    × (once (
          is_calm events
          && (contains ("a.py", 3) (places events) && has_marker read search ("a.py", 3)))
        ≤ times ("a.py", 3) (trace_lines read search [] events fresh_tracer).0)
trace_lines-waits_once_example = trace_lines-waits_once read search events ("a.py", 3)

-- The marker on a line of its own is waited for at the line after it.
two_waits :
    (trace_lines read search [] events fresh_tracer).0
    ≡ (("a.py", 1), "go") ∷ (("a.py", 3), "stop") ∷ []
unfolding trace_line check_line previous_line scan_frame get_marker contains add lookup empty
    scan_lines put
two_waits = refl

-- Where the line with the inline marker is not run, the line after it waits in its place.
passed_by :
    (trace_lines read search [] (run_line 4 ∷ []) fresh_tracer).0 ≡ (("a.py", 3), "stop") ∷ []
unfolding trace_line check_line previous_line scan_frame get_marker contains add lookup empty
    scan_lines put
passed_by = refl

-- After an error the frame's second marker may be left out.
after_error :
    (trace_lines read search []
      (record { frame = 1; place = ("a.py", 2); error = true; left_out = false }
        ∷ record { frame = 1; place = ("a.py", 3); error = false; left_out = true }
        ∷ [])
      fresh_tracer).0
    ≡ (("a.py", 1), "go") ∷ []
unfolding trace_line check_line previous_line scan_frame get_marker contains add lookup empty
    scan_lines put
after_error = refl
