-- ===== src/Trace/Shown.antt =====
-- frontrun/_trace_format.py, `classify_conflict`: the pattern that it names, and the trace.
use frontrun.Prelude.{
  by_test, ℕ, ◌<◌, ◌≡◌, sym, ap, ◌∙◌, Bool, true, false, ◌&&◌, Option, none, some, List, [], ◌∷◌,
  String, string_eq, nat_eq, lookup, length, leb, ltb, contains, All, arith,
}
use mathlib.Core.Path.{subst}
use frontrun.Trace.{Access, SourceLineEvent}
use frontrun.Trace.Classify.{
  Pattern, lost_update, write_write, unknown, ConflictInfo, Accesses, attr_accesses,
  threads_involved, is_read, is_write, firsts, reads_come_first, both_write, Outcome, found, so_far,
  then_look, settle, lost_pair, write_pair, each_pair, all_pairs, look_at_attr, look_at_attrs,
  conclude, classify_conflict, io_attrs,
}
use frontrun.Trace.Witnessed.{
  any_of, IsLostUpdate, first_from, lookup-firsts, reads_come_first-IsLostUpdate, both_write-any,
}
use frontrun.Trace.Grouped.{accesses_of, attr_accesses-All}

-- The pattern and the attribute of a conflict are there, where `group` gives an attribute's accesses.
abbrev pub IsThere : (String → Accesses) → Option String → Pattern → Type 0
IsThere group (some attr) lost_update = (a : ℕ) × (b : ℕ) × (a < b) × IsLostUpdate a b (group attr)
IsThere group (some attr) write_write =
    (a : ℕ) × (b : ℕ) × (a < b)
    × ((any_of is_write a (group attr) && any_of is_write b (group attr)) ≡ true)
IsThere group none unknown = Unit
IsThere group _ _ = ⊥

module _ (group : String → Accesses) where
  abbrev IsShown : ConflictInfo → Type 0
  IsShown info = IsThere group info.attr_name info.pattern

  IsShownBy : Outcome → Type 0
  IsShownBy (found info) = IsShown info
  IsShownBy (so_far none) = Unit
  IsShownBy (so_far (some info)) = IsShown info

  settle-IsShownBy :
      (is_io : Bool) (io plain : ConflictInfo) (fallback : Option ConflictInfo)
      → IsShown io
      → IsShown plain
      → IsShownBy (so_far fallback)
      → IsShownBy (settle is_io io plain fallback)
  unfolding IsShownBy
  settle-IsShownBy true io plain none hi hp hf = hi
  settle-IsShownBy true io plain (some old) hi hp hf = hf
  settle-IsShownBy false io plain fallback hi hp hf = hp

  then_look-IsShownBy :
      (o : Outcome) (next : Option ConflictInfo → Outcome)
      → IsShownBy o
      → ((fallback : Option ConflictInfo) → IsShownBy (so_far fallback) → IsShownBy (next fallback))
      → IsShownBy (then_look o next)
  unfolding IsShownBy
  then_look-IsShownBy (found info) next h k = h
  then_look-IsShownBy (so_far fallback) next h k = k fallback h

  each_pair-IsShownBy :
      (f : ℕ × ℕ → Option ConflictInfo → Outcome) (ps : List (ℕ × ℕ))
      (fallback : Option ConflictInfo)
      → ((p : ℕ × ℕ) (fallback : Option ConflictInfo)
          → IsShownBy (so_far fallback)
          → IsShownBy (f p fallback))
      → IsShownBy (so_far fallback)
      → IsShownBy (each_pair f ps fallback)
  unfolding each_pair
  each_pair-IsShownBy f [] fallback k h = h
  each_pair-IsShownBy f (p ∷ ps) fallback k h =
      then_look-IsShownBy (f p fallback) (each_pair f ps) (k p fallback h)
        (λ o g. each_pair-IsShownBy f ps o k g)

  at_first :
      (p : Access → Bool) (t : ℕ) (xs : Accesses)
      → lookup t (firsts p 0 xs []) ≡ first_from p t 0 xs
  unfolding lookup
  at_first p t xs = lookup-firsts p t 0 xs []

  module _ (attr : String) (is_io : Bool) where
    abbrev first_read : List (ℕ × ℕ)
    first_read = firsts is_read 0 (group attr) []

    abbrev first_write : List (ℕ × ℕ)
    first_write = firsts is_write 0 (group attr) []

    lost_of :
        (a b : ℕ)
        → reads_come_first
            (lookup a first_read)
            (lookup b first_read)
            (lookup a first_write)
            (lookup b first_write)
          ≡ true
        → IsLostUpdate a b (group attr)
    lost_of a b e = reads_come_first-IsLostUpdate a b (group attr) (
        ap
          (λ o.
            reads_come_first o (first_from is_read b 0 (group attr))
              (first_from is_write a 0 (group attr)) (first_from is_write b 0 (group attr)))
          (sym (at_first is_read a (group attr)))
        ∙ ap
            (λ o.
              reads_come_first (lookup a first_read) o (first_from is_write a 0 (group attr))
                (first_from is_write b 0 (group attr)))
            (sym (at_first is_read b (group attr)))
        ∙ ap
            (λ o.
              reads_come_first (lookup a first_read) (lookup b first_read) o
                (first_from is_write b 0 (group attr)))
            (sym (at_first is_write a (group attr)))
        ∙ ap
            (λ o.
              reads_come_first (lookup a first_read) (lookup b first_read) (lookup a first_write) o)
            (sym (at_first is_write b (group attr)))
        ∙ e)

    both_of :
        (a b : ℕ)
        → both_write (lookup a first_write) (lookup b first_write) ≡ true
        → (any_of is_write a (group attr) && any_of is_write b (group attr)) ≡ true
    both_of a b e = both_write-any a b (group attr) (
        ap (λ o. both_write o (first_from is_write b 0 (group attr)))
          (sym (at_first is_write a (group attr)))
        ∙ ap (λ o. both_write (lookup a first_write) o) (sym (at_first is_write b (group attr)))
        ∙ e)

    lost_pair-IsShownBy :
        (p : ℕ × ℕ) (fallback : Option ConflictInfo)
        → IsShownBy (so_far fallback)
        → IsShownBy (lost_pair attr is_io first_read first_write p fallback)
    lost_pair-IsShownBy (a, b) fallback h =
        by_test IsShownBy (leb b a) (λ e. h)
          (λ lt.
            by_test IsShownBy
              (reads_come_first (lookup a first_read) (lookup b first_read) (lookup a first_write)
                (lookup b first_write))
              (λ e.
                settle-IsShownBy is_io _ _ fallback (a, b, ground (arith, lt), lost_of a b e)
                  (a, b, ground (arith, lt), lost_of a b e) h)
              (λ e. h))

    write_pair-IsShownBy :
        (p : ℕ × ℕ) (fallback : Option ConflictInfo)
        → IsShownBy (so_far fallback)
        → IsShownBy (write_pair attr is_io first_read first_write p fallback)
    write_pair-IsShownBy (a, b) fallback h =
        by_test IsShownBy (leb b a) (λ e. h)
          (λ lt.
            by_test IsShownBy (both_write (lookup a first_write) (lookup b first_write))
              (λ e.
                settle-IsShownBy is_io _ _ fallback (a, b, ground (arith, lt), both_of a b e)
                  (a, b, ground (arith, lt), both_of a b e) h)
              (λ e. h))

  look_at_attr-IsShownBy :
      (ios : List String) (attr : String) (xs : Accesses) (fallback : Option ConflictInfo)
      → group attr ≡ xs
      → IsShownBy (so_far fallback)
      → IsShownBy (look_at_attr ios attr xs fallback)
  unfolding look_at_attr
  look_at_attr-IsShownBy ios attr xs fallback e h =
      subst (λ xs. IsShownBy (look_at_attr ios attr xs fallback)) e
        (by_test IsShownBy (ltb (length (threads_involved (group attr))) 2) (λ few. h)
          (λ many.
            then_look-IsShownBy _ _
              (each_pair-IsShownBy _
                (all_pairs (threads_involved (group attr)) (threads_involved (group attr))) fallback
                (lost_pair-IsShownBy attr (contains attr ios)) h)
              (λ o g.
                each_pair-IsShownBy _
                  (all_pairs (threads_involved (group attr)) (threads_involved (group attr))) o
                  (write_pair-IsShownBy attr (contains attr ios)) g)))

  look_at_attrs-IsShownBy :
      (ios : List String) (m : List (String × Accesses)) (fallback : Option ConflictInfo)
      → All (λ g. group g.0 ≡ g.1) m
      → IsShownBy (so_far fallback)
      → IsShownBy (look_at_attrs ios m fallback)
  unfolding look_at_attrs
  look_at_attrs-IsShownBy ios [] fallback fit h = h
  look_at_attrs-IsShownBy ios ((attr, xs) ∷ m) fallback fit h =
      then_look-IsShownBy (look_at_attr ios attr xs fallback) (look_at_attrs ios m)
        (look_at_attr-IsShownBy ios attr xs fallback fit.0 h)
        (λ o g. look_at_attrs-IsShownBy ios m o fit.1 g)

  conclude-IsShown :
      (es : List SourceLineEvent) (o : Outcome) → IsShownBy o → IsShown (conclude es o)
  unfolding IsShownBy
  conclude-IsShown es (found info) h = h
  conclude-IsShown es (so_far (some info)) h = h
  conclude-IsShown es (so_far none) h = tt

-- What is named is in the trace, where an attribute is a name, on any object, and all accesses without
-- a name are one attribute: for a lost update two threads that both read the attribute before either
-- of them wrote it, and both wrote it later; for a write-write conflict two threads that wrote it; and
-- no attribute is named where the pattern is unknown.
pub classify_conflict-IsThere :
    (es : List SourceLineEvent)
    → IsThere
        (λ k. accesses_of k es)
        (classify_conflict es).attr_name
        (classify_conflict es).pattern
unfolding classify_conflict IsShownBy
classify_conflict-IsThere [] = tt
classify_conflict-IsThere (e ∷ es) =
    conclude-IsShown (λ k. accesses_of k (e ∷ es)) (e ∷ es)
      (look_at_attrs (io_attrs (e ∷ es) []) (attr_accesses (e ∷ es) []) none)
      (look_at_attrs-IsShownBy (λ k. accesses_of k (e ∷ es)) (io_attrs (e ∷ es) [])
        (attr_accesses (e ∷ es) []) none (attr_accesses-All (e ∷ es)) tt)
