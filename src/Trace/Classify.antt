-- ===== src/Trace/Classify.antt =====
-- frontrun/_trace_format.py, `classify_conflict`: the pattern of a trace's conflict.
use frontrun.Prelude.{
  ℕ, suc, Bool, true, false, ◌&&◌, not, Option, none, some, List, [], ◌∷◌, ◌++◌, String, string_eq,
  nat_eq, ◌==◌, if◌then◌else◌, is_some, lookup, put, add, contains, length, leb, ltb, min,
}
use frontrun.Trace.{Access, read, write, read_write, other, SourceLineEvent}

pub data Pattern : Type 0 where
  lost_update write_write unknown : Pattern

-- The summaries, with what their texts mention.
pub data Summary : Type 0 where
  no_accesses : Summary
  lost_update_io lost_update_of concurrent_io write_write_of : (a b : ℕ) → String → Summary
  race_of : List ℕ → Summary

pub record ConflictInfo : Type 0 where
  pub pattern : Pattern
  pub summary : Summary
  pub attr_name : Option String

-- `ev.attr_name or "(unknown)"` and `ev.access_type or "unknown"`; an empty text is false.
unfoldable pub attr_key : Option String → String
attr_key none = "(unknown)"
attr_key (some s) = if s == "" then "(unknown)" else s

abbrev pub kind_of : Option Access → Access
kind_of none = other "unknown"
kind_of (some (other s)) = if s == "" then other "unknown" else other s
kind_of (some a) = a

abbrev pub Accesses : Type 0
Accesses = List (ℕ × Access)

abbrev pub accesses_at : String → List (String × Accesses) → Accesses
accesses_at k m = elim (lookup k m) [ none ↦ [] | some xs ↦ xs ]

-- `attr_accesses`, and `io_attrs`
abbrev pub add_access : SourceLineEvent → List (String × Accesses) → List (String × Accesses)
add_access e m =
    let k = attr_key e.attr_name in
    put k (accesses_at k m ++ ((e.thread_id, kind_of e.access_type) ∷ [])) m

unfoldable pub attr_accesses :
    List SourceLineEvent → List (String × Accesses) → List (String × Accesses)
attr_accesses [] m = m
attr_accesses (e ∷ es) m = attr_accesses es (add_access e m)

abbrev pub is_io_type : Option String → Bool
is_io_type none = false
is_io_type (some s) = s == "IO"

unfoldable pub io_attrs : List SourceLineEvent → List String → List String
io_attrs [] s = s
io_attrs (e ∷ es) s =
    io_attrs es (if is_io_type e.obj_type_name then add (attr_key e.attr_name) s else s)

-- `sorted({…})`
abbrev pub insert_sorted : ℕ → List ℕ → List ℕ
insert_sorted t [] = t ∷ []
insert_sorted t (u ∷ us) =
    if t == u then u ∷ us else if ltb t u then t ∷ u ∷ us else u ∷ insert_sorted t us

unfoldable pub threads_involved : Accesses → List ℕ
threads_involved [] = []
threads_involved ((t, a) ∷ xs) = insert_sorted t (threads_involved xs)

unfoldable pub event_threads : List SourceLineEvent → List ℕ
event_threads [] = []
event_threads (e ∷ es) = insert_sorted e.thread_id (event_threads es)

abbrev pub is_read : Access → Bool
is_read read = true
is_read read_write = true
is_read _ = false

abbrev pub is_write : Access → Bool
is_write write = true
is_write read_write = true
is_write _ = false

-- `first_read` and `first_write`: the index of the thread's first access of a kind
unfoldable pub firsts : (Access → Bool) → ℕ → Accesses → List (ℕ × ℕ) → List (ℕ × ℕ)
firsts p i [] m = m
firsts p i ((t, a) ∷ xs) m =
    firsts p (suc i) xs (if p a && not (is_some (lookup t m)) then put t i m else m)

abbrev pub reads_come_first : Option ℕ → Option ℕ → Option ℕ → Option ℕ → Bool
reads_come_first (some r_a) (some r_b) (some w_a) (some w_b) =
    ltb r_a (min w_a w_b) && ltb r_b (min w_a w_b)
reads_come_first _ _ _ _ = false

abbrev pub both_write : Option ℕ → Option ℕ → Bool
both_write (some w_a) (some w_b) = true
both_write _ _ = false

-- `for t_a in threads: for t_b in threads`
abbrev pub with_each : ℕ → List ℕ → List (ℕ × ℕ)
with_each a [] = []
with_each a (b ∷ bs) = (a, b) ∷ with_each a bs

abbrev pub all_pairs : List ℕ → List ℕ → List (ℕ × ℕ)
all_pairs [] bs = []
all_pairs (a ∷ xs) bs = with_each a bs ++ all_pairs xs bs

-- A return, or the fallback for I/O so far.
pub data Outcome : Type 0 where
  found : ConflictInfo → Outcome
  so_far : Option ConflictInfo → Outcome

abbrev pub or_info : Option ConflictInfo → ConflictInfo → Option ConflictInfo
or_info none info = some info
or_info (some old) info = some old

abbrev pub then_look : Outcome → (Option ConflictInfo → Outcome) → Outcome
then_look (found info) next = found info
then_look (so_far fallback) next = next fallback

-- One pair of the loops: `io` is reported as a fallback, and `plain` returned.
abbrev pub settle : Bool → ConflictInfo → ConflictInfo → Option ConflictInfo → Outcome
settle is_io io plain fallback = if is_io then so_far (or_info fallback io) else found plain

module _ (attr : String) (is_io : Bool) (first_read first_write : List (ℕ × ℕ)) where
  abbrev pub lost_pair : ℕ × ℕ → Option ConflictInfo → Outcome
  lost_pair (a, b) fallback =
      if leb b a
      then so_far fallback
      else if reads_come_first (lookup a first_read) (lookup b first_read) (lookup a first_write)
          (lookup b first_write)
      then settle is_io
          (record {
            pattern = lost_update;
            summary = lost_update_io a b attr;
            attr_name = some attr;
          })
          (record {
            pattern = lost_update;
            summary = lost_update_of a b attr;
            attr_name = some attr;
          })
          fallback
      else so_far fallback

  abbrev pub write_pair : ℕ × ℕ → Option ConflictInfo → Outcome
  write_pair (a, b) fallback =
      if leb b a
      then so_far fallback
      else if both_write (lookup a first_write) (lookup b first_write)
      then settle is_io
          (record {
            pattern = write_write;
            summary = concurrent_io a b attr;
            attr_name = some attr;
          })
          (record {
            pattern = write_write;
            summary = write_write_of a b attr;
            attr_name = some attr;
          })
          fallback
      else so_far fallback

unfoldable pub each_pair :
    (ℕ × ℕ → Option ConflictInfo → Outcome) → List (ℕ × ℕ) → Option ConflictInfo → Outcome
each_pair f [] fallback = so_far fallback
each_pair f (p ∷ ps) fallback = then_look (f p fallback) (each_pair f ps)

-- One attribute of the loop.
unfoldable pub look_at_attr : List String → String → Accesses → Option ConflictInfo → Outcome
look_at_attr ios attr xs fallback =
    let threads = threads_involved xs in
    let is_io = contains attr ios in
    let first_read = firsts is_read 0 xs [] in
    let first_write = firsts is_write 0 xs [] in
    if ltb (length threads) 2
    then so_far fallback
    else then_look
        (each_pair (lost_pair attr is_io first_read first_write) (all_pairs threads threads)
          fallback)
        (each_pair (write_pair attr is_io first_read first_write) (all_pairs threads threads))

unfoldable pub look_at_attrs :
    List String → List (String × Accesses) → Option ConflictInfo → Outcome
look_at_attrs ios [] fallback = so_far fallback
look_at_attrs ios ((attr, xs) ∷ m) fallback =
    then_look (look_at_attr ios attr xs fallback) (look_at_attrs ios m)

abbrev pub conclude : List SourceLineEvent → Outcome → ConflictInfo
conclude es (found info) = info
conclude es (so_far (some info)) = info
conclude es (so_far none) = record {
  pattern = unknown;
  summary = race_of (event_threads es);
  attr_name = none;
}

unfoldable pub classify_conflict : List SourceLineEvent → ConflictInfo
classify_conflict [] = record { pattern = unknown; summary = no_accesses; attr_name = none }
classify_conflict (e ∷ es) =
    conclude (e ∷ es) (look_at_attrs (io_attrs (e ∷ es) []) (attr_accesses (e ∷ es) []) none)
