-- ===== src/Trace/Condense.antt =====
-- frontrun/_trace_format.py: a long list of source lines is cut down to the conflict. Merging writes
-- into the events given; their only user, `format_trace`, reads none of them again.
use mathlib.Core.List.{map}
use frontrun.Prelude.{
  ℕ, zero, suc, ◌-◌, ◌/◌, Bool, true, false, ◌&&◌, Option, none, some, List, [], ◌∷◌, ◌++◌, ◌==◌,
  nat_eq, string_eq, if◌then◌else◌, ltb, leb, length, take, drop, keep, contains, lookup, put, add,
}
use frontrun.Trace.{Access, read, write, read_write, SourceLineEvent, Key, key_eq}

abbrev pub key_of : SourceLineEvent → Key
key_of ev = (ev.obj_type_name, ev.attr_name)

-- `access_type in ("write", "read+write")`
abbrev pub writes : Option Access → Bool
writes (some write) = true
writes (some read_write) = true
writes _ = false

-- `access_type in ("read", "read+write")`
abbrev pub reads : Option Access → Bool
reads (some read) = true
reads (some read_write) = true
reads _ = false

pub record Tally : Type 0 where
  pub key_threads : List (Key × List ℕ)
  pub key_has_write : List Key

abbrev pub threads_at : Key → List (Key × List ℕ) → List ℕ
threads_at k d = elim (lookup k d) [ none ↦ [] | some tids ↦ tids ]

abbrev pub count_event : SourceLineEvent → Tally → Tally
count_event ev t = record {
  key_threads =
      put (key_of ev) (add ev.thread_id (threads_at (key_of ev) t.key_threads)) t.key_threads;
  key_has_write =
      if writes ev.access_type then add (key_of ev) t.key_has_write else t.key_has_write;
}

unfoldable pub tally : List SourceLineEvent → Tally → Tally
tally [] t = t
tally (ev ∷ events) t = tally events (count_event ev t)

abbrev pub is_conflict : Tally → Key × List ℕ → Bool
is_conflict t (k, tids) = ltb 1 (length tids) && contains k t.key_has_write

unfoldable pub find_conflicting_keys : List SourceLineEvent → List Key
find_conflicting_keys events =
    let t = tally events (record { key_threads = []; key_has_write = [] }) in
    map (λ entry. entry.0) (keep (is_conflict t) t.key_threads)

-- What a later event of the same line adds to the entry's access type.
abbrev pub widen : Option Access → Option Access → Option Access
widen (some read) ev = if writes ev then some read_write else some read
widen (some write) ev = if reads ev then some read_write else some write
widen prev ev = prev

abbrev pub same_line : SourceLineEvent → SourceLineEvent → Bool
same_line prev ev =
    ev.thread_id == prev.thread_id && (ev.lineno == prev.lineno && ev.filename == prev.filename)

-- `prev` is `result[-1]`.
unfoldable pub merge_from : SourceLineEvent → List SourceLineEvent → List SourceLineEvent
merge_from prev [] = prev ∷ []
merge_from prev (ev ∷ events) = elim (same_line prev ev) [
  | true ↦ merge_from (record prev { access_type = widen prev.access_type ev.access_type }) events
  | false ↦ prev ∷ merge_from ev events
]

unfoldable pub merge_consecutive : List SourceLineEvent → List SourceLineEvent
merge_consecutive [] = []
merge_consecutive (ev ∷ events) = merge_from ev events

-- An entry of the result: an event, or a CollapsedRun, whose thread -1 is none.
pub data Item : Type 0 where
  line : SourceLineEvent → Item
  collapsed : (count : ℕ) → Option ℕ → Item

-- The runs of events of one thread; `tid` and `run` are `current_tid` and `current_run`.
unfoldable pub runs_from :
    ℕ → List SourceLineEvent → List SourceLineEvent → List (ℕ × List SourceLineEvent)
runs_from tid run [] = (tid, run) ∷ []
runs_from tid run (ev ∷ events) = elim (ev.thread_id == tid) [
  | true ↦ runs_from tid (run ++ (ev ∷ [])) events
  | false ↦ (tid, run) ∷ runs_from ev.thread_id (ev ∷ []) events
]

abbrev pub last_of : SourceLineEvent → List SourceLineEvent → SourceLineEvent
last_of x [] = x
last_of x (y ∷ ys) = last_of y ys

unfoldable pub show_run : ℕ × List SourceLineEvent → List Item
show_run (tid, []) = []
show_run (tid, x ∷ xs) =
    if leb (length (x ∷ xs)) 3
    then map line (x ∷ xs)
    else line x ∷ collapsed (length (x ∷ xs) - 2) (some tid) ∷ line (last_of x xs) ∷ []

unfoldable pub show_runs : List (ℕ × List SourceLineEvent) → List Item
show_runs [] = []
show_runs (r ∷ rs) = show_run r ++ show_runs rs

-- `result[-n:]`, which is the whole list for n = 0
abbrev pub from_end : ℕ → List Item → List Item
from_end zero result = result
from_end (suc n) result = drop (length result - suc n) result

-- The final cap.
unfoldable pub cap : ℕ → List Item → List Item
cap max_lines result =
    if ltb max_lines (length result)
    then take (max_lines / 2) result
      ++ (collapsed (length result - max_lines) none ∷ from_end (max_lines / 2) result)
    else result

abbrev pub show_lines : List SourceLineEvent → List Item
show_lines [] = []
show_lines (ev ∷ events) = show_runs (runs_from ev.thread_id (ev ∷ []) events)

unfoldable pub collapse_runs : List SourceLineEvent → ℕ → List Item
collapse_runs [] max_lines = []
collapse_runs (ev ∷ events) max_lines = cap max_lines (show_lines (ev ∷ events))

abbrev pub merged_or : List SourceLineEvent → List SourceLineEvent → List SourceLineEvent
merged_or lines [] = lines
merged_or lines (ev ∷ events) = merge_consecutive (ev ∷ events)

-- The lines that touch a conflicting key, merged; all lines if there are none.
unfoldable pub narrow : List SourceLineEvent → List SourceLineEvent
narrow lines = elim (find_conflicting_keys lines) [
  | [] ↦ lines
  | k ∷ ks ↦ merged_or lines (keep (λ ev. contains (key_of ev) (k ∷ ks)) lines)
]

-- The two early returns give the list as it is wherever it is short enough.
unfoldable pub condense_trace : List SourceLineEvent → ℕ → List Item
condense_trace lines max_lines =
    let short = narrow lines in
    if leb (length short) max_lines then map line short else collapse_runs short max_lines
