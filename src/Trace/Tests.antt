-- ===== src/Trace/Tests.antt =====
-- A counter that two threads read and then write.
use mathlib.Core.List.{map}
use native.Mathlib.Omega.{arith}
use frontrun.Prelude.{
  ℕ, ◌≤◌, ◌≡◌, refl, none, some, List, [], ◌∷◌, ◌++◌, ◌+◌, ◌-◌, ◌/◌, ◌<◌, String, inl, inr, length,
  put, add, lookup, contains, ◌&&◌, true,
}
use frontrun.Trace.{
  Access, read, write, TraceEvent, SourceLineEvent, Key, key_eq, deduplicate_to_source_lines,
  deduplicate_from, line_of,
}
use frontrun.Trace.Condense.{
  Item, collapsed, show_lines, collapse_runs, condense_trace, find_conflicting_keys, tally,
  show_runs, show_run, runs_from, reads, writes,
}
use frontrun.Trace.Spots.{Spot, spot, line_spot, without_repeats, deduplicate-spots}
use frontrun.Trace.Accesses.{event_at, line_at, deduplicate-accesses}
use frontrun.Trace.Conflicts.{threads_of, written, two_threads, find_conflicting_keys_iff}
use frontrun.Trace.Classify.{
  lost_update, classify_conflict, io_attrs, attr_accesses, attr_key, look_at_attrs, look_at_attr,
  threads_involved, firsts, each_pair,
}
use frontrun.Trace.Grouped.{accesses_of}
use frontrun.Trace.Shown.{IsThere, classify_conflict-IsThere}
use frontrun.Trace.Cap.{condense_trace-bounded}
use frontrun.Trace.Halves.{collapse_runs-halves}
use Prim.Native.Nat.{◌%◌}
use frontrun.Trace.Collapse.{Shows, collapse_runs-Shows}

abbrev text : String → ℕ → String
text file n = "self.value += 1"

abbrev at_value : ℕ → Access → TraceEvent
at_value t a = record {
  step_index = 0;
  thread_id = t;
  filename = "counter.py";
  lineno = 5;
  function_name = "increment";
  opcode = "LOAD_ATTR";
  access_type = some a;
  attr_name = some "value";
  obj_type_name = some "Counter";
  call_chain = none;
}

abbrev events : List TraceEvent
events = at_value 0 read ∷ at_value 1 read ∷ at_value 1 write ∷ at_value 0 write ∷ []

abbrev lines : List SourceLineEvent
lines = deduplicate_to_source_lines text events

deduplicate-spots_example : map line_spot lines ≡ without_repeats (map spot events)
deduplicate-spots_example = deduplicate-spots text events

abbrev place : Spot
place = (1, 5, "counter.py", (some "Counter", some "value"))

deduplicate-accesses_example :
    (line_at reads place lines ≡ event_at reads place events)
    × (line_at writes place lines ≡ event_at writes place events)
deduplicate-accesses_example =
    deduplicate-accesses text place events (inl refl, (inl refl, (inr refl, (inr refl, tt))))

abbrev value_key : Key
value_key = (some "Counter", some "value")

find_conflicting_keys_iff_example :
    contains value_key (find_conflicting_keys lines)
    ≡ (two_threads (threads_of value_key lines) && written value_key lines)
find_conflicting_keys_iff_example = find_conflicting_keys_iff value_key lines

-- The counter's key is found.
value_is_found : contains value_key (find_conflicting_keys lines) ≡ true
unfolding deduplicate_to_source_lines deduplicate_from find_conflicting_keys tally contains put add
    lookup
value_is_found = refl

condense_trace-bounded_example : length (condense_trace lines 2) ≤ 3
condense_trace-bounded_example = condense_trace-bounded lines 2 (omega arith)

-- Five lines of one thread, of which three entries are shown.
abbrev one_thread : List SourceLineEvent
one_thread = let e = line_of text (at_value 0 read) in e ∷ e ∷ e ∷ e ∷ e ∷ []

one_thread_fits : length (show_lines one_thread) ≤ 3
unfolding runs_from show_runs show_run
one_thread_fits = omega arith

collapse_runs-Shows_example : Shows (collapse_runs one_thread 3) one_thread
collapse_runs-Shows_example = collapse_runs-Shows one_thread 3 one_thread_fits

-- Both threads read the counter, then both write it.
abbrev racing : List SourceLineEvent
racing =
    line_of text (at_value 0 read)
    ∷ line_of text (at_value 1 read)
    ∷ line_of text (at_value 0 write)
    ∷ line_of text (at_value 1 write)
    ∷ []

classify_conflict-IsThere_example :
    IsThere
      (λ k. accesses_of k racing)
      (classify_conflict racing).attr_name
      (classify_conflict racing).pattern
classify_conflict-IsThere_example = classify_conflict-IsThere racing

racing_loses : (classify_conflict racing).pattern ≡ lost_update
unfolding classify_conflict io_attrs attr_accesses attr_key lookup put add contains look_at_attrs
    look_at_attr threads_involved firsts each_pair
racing_loses = refl

one_thread_too_long : 2 < length (show_lines one_thread)
unfolding runs_from show_runs show_run
one_thread_too_long = omega arith

-- Of its three entries the first and the last are kept.
collapse_runs-halves_example :
    (front : List Item) × (middle : List Item) × (back : List Item) × (show_lines one_thread
      ≡ front ++ (middle ++ back))
    × (collapse_runs one_thread 2
        ≡ front ++ (collapsed (length (show_lines one_thread) - 2) none ∷ back))
    × (length front ≡ 2 / 2)
    × (length back ≡ 2 / 2)
    × (length middle ≡ (length (show_lines one_thread) - 2) + 2 % 2)
collapse_runs-halves_example = collapse_runs-halves one_thread 2 (omega arith) one_thread_too_long
