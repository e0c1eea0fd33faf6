-- ===== src/Trace/Accesses.antt =====
-- frontrun/_trace_format.py, `deduplicate_to_source_lines`: each place's reads and writes.
use frontrun.Prelude.{
  ℕ, ◌≡◌, refl, sym, ap, ◌∙◌, Bool, true, false, ◌&&◌, ◌||◌, Option, some, List, [], ◌∷◌, String,
  ◌⊎◌, inl, inr, All, arith, Bool-cases,
}
use frontrun.Trace.{
  Access, read, write, read_write, TraceEvent, SourceLineEvent, merge_access, absorb, same_entry,
  line_of, deduplicate_from, deduplicate_to_source_lines,
}
use frontrun.Trace.Condense.{reads, writes}
use frontrun.Trace.Spots.{Spot, spot_beq, spot, line_spot, line_spot-absorb, same_entry-spot}

-- An event that the recorder took for a read or a write.
abbrev pub IsReadOrWrite : TraceEvent → Type 0
IsReadOrWrite ev = (ev.access_type ≡ some read) ⊎ (ev.access_type ≡ some write)

-- The two or their union.
abbrev IsUnion : Option Access → Type 0
IsUnion a = (a ≡ some read) ⊎ (a ≡ some write) ⊎ (a ≡ some read_write)

-- Whether some event, or some line, accesses the place in the way that `p` tests.
abbrev pub event_at : (Option Access → Bool) → Spot → List TraceEvent → Bool
event_at p s [] = false
event_at p s (ev ∷ events) = (spot_beq (spot ev) s && p ev.access_type) || event_at p s events

abbrev pub line_at : (Option Access → Bool) → Spot → List SourceLineEvent → Bool
line_at p s [] = false
line_at p s (e ∷ es) = (spot_beq (line_spot e) s && p e.access_type) || line_at p s es

-- A test that the merge of two access types passes where one of them does.
abbrev Joins : (Option Access → Bool) → Type 0
Joins p =
    (l a : Option Access)
    → IsUnion l
    → ((a ≡ some read) ⊎ (a ≡ some write))
    → p (merge_access l a) ≡ (p l || p a)

reads-Joins : Joins reads
reads-Joins l a hl ha = ground arith

writes-Joins : Joins writes
writes-Joins l a hl ha = ground arith

merge-IsUnion :
    (l a : Option Access)
    → IsUnion l
    → ((a ≡ some read) ⊎ (a ≡ some write))
    → IsUnion (merge_access l a)
merge-IsUnion l a hl ha = ground arith

regroup : (a b c d : Bool) → ((a && (b || c)) || d) ≡ ((a && b) || ((a && c) || d))
regroup a b c d = ground arith

union : (a : Option Access) → ((a ≡ some read) ⊎ (a ≡ some write)) → IsUnion a
union a h = ground arith

kept :
    (last : SourceLineEvent) (prev ev : TraceEvent)
    → line_spot last ≡ spot prev
    → same_entry prev ev ≡ true
    → line_spot (absorb ev last) ≡ line_spot last
kept last prev ev e same = line_spot-absorb ev last (same_entry-spot prev ev same ∙ sym e)

module _ (p : Option Access → Bool) (joins : Joins p) (get_line : String → ℕ → String)
    (s : Spot) where
  absorbed :
      (last : SourceLineEvent) (prev ev : TraceEvent) (events : List TraceEvent)
      → line_spot last ≡ spot prev
      → IsUnion last.access_type
      → IsReadOrWrite ev
      → same_entry prev ev ≡ true
      → ((spot_beq (line_spot (absorb ev last)) s
            && p (merge_access last.access_type ev.access_type))
          || event_at p s events)
        ≡ ((spot_beq (line_spot last) s && p last.access_type) || event_at p s (ev ∷ events))
  absorbed last prev ev events e u h same =
      rw
        (
          ap (λ x. spot_beq x s) (kept last prev ev e same),
          joins last.access_type ev.access_type u h,
          ap (λ x. spot_beq x s) (same_entry-spot prev ev same ∙ sym e),
        )
        (regroup (spot_beq (line_spot last) s) (p last.access_type) (p ev.access_type)
          (event_at p s events))

  accesses_from :
      (last : SourceLineEvent) (prev : TraceEvent) (events : List TraceEvent)
      → line_spot last ≡ spot prev
      → IsUnion last.access_type
      → All IsReadOrWrite events
      → line_at p s (deduplicate_from get_line last prev events)
        ≡ ((spot_beq (line_spot last) s && p last.access_type) || event_at p s events)
  unfolding deduplicate_from
  accesses_from last prev [] e u h = refl
  accesses_from last prev (ev ∷ events) e u h = elim (Bool-cases (same_entry prev ev)) [
    | inl same ↦
        rw (same, deduplicate_from)
          (accesses_from (absorb ev last) prev events (kept last prev ev e same ∙ e)
              (merge-IsUnion last.access_type ev.access_type u h.0) h.1
            ∙ absorbed last prev ev events e u h.0 same)
    | inr new ↦
        rw (new, deduplicate_from)
          (ap (λ b. (spot_beq (line_spot last) s && p last.access_type) || b)
            (accesses_from (line_of get_line ev) ev events refl (union ev.access_type h.0) h.1))
  ]

  accesses :
      (events : List TraceEvent)
      → All IsReadOrWrite events
      → line_at p s (deduplicate_to_source_lines get_line events) ≡ event_at p s events
  unfolding deduplicate_to_source_lines
  accesses [] h = refl
  accesses (ev ∷ events) h =
      accesses_from (line_of get_line ev) ev events refl (union ev.access_type h.0) h.1

-- Of events that are reads or writes, no access is lost or made up: a place is read, or written, by
-- some source line exactly if it is by some event.
pub deduplicate-accesses :
    (get_line : String → ℕ → String) (s : Spot) (events : List TraceEvent)
    → All IsReadOrWrite events
    → (line_at reads s (deduplicate_to_source_lines get_line events) ≡ event_at reads s events)
      × (line_at writes s (deduplicate_to_source_lines get_line events) ≡ event_at writes s events)
deduplicate-accesses get_line s events h = (
  accesses reads reads-Joins get_line s events h,
  accesses writes writes-Joins get_line s events h,
)
