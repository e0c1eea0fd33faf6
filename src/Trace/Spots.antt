-- ===== src/Trace/Spots.antt =====
-- frontrun/_trace_format.py, `deduplicate_to_source_lines`: which places the lines name, in which
-- order, and how each is accessed.
use mathlib.Core.List.{map}
use frontrun.Prelude.{
  ℕ, ◌≡◌, refl, sym, ap, ◌∙◌, Bool, true, ◌&&◌, Option, none, some, List, [], ◌∷◌, String, ◌==◌,
  nat_eq, string_eq, if◌then◌else◌, arith, Bool-cases, inl, inr, ◌↔◌,
}
use frontrun.Trace.{
  TraceEvent, SourceLineEvent, Key, key_beq, key_beq_iff, absorb, same_entry, line_of,
  deduplicate_from, deduplicate_to_source_lines, fill_name,
}

-- Thread, line number, file, and the key accessed.
abbrev pub Spot : Type 0
Spot = ℕ × ℕ × String × Key

abbrev pub spot_beq : Spot → Spot → Bool
spot_beq (t, n, f, k) (t', n', f', k') = (t == t' && (n == n' && f == f')) && key_beq k k'

abbrev pub spot : TraceEvent → Spot
spot ev = (ev.thread_id, ev.lineno, ev.filename, (ev.obj_type_name, ev.attr_name))

abbrev pub line_spot : SourceLineEvent → Spot
line_spot e = (e.thread_id, e.lineno, e.filename, (e.obj_type_name, e.attr_name))

spot_beq_iff : (a b : Spot) → (spot_beq a b ≡ true) ↔ (a ≡ b)
spot_beq_iff (t, n, f, k) (t', n', f', k') =
    ground (arith, string_eq.beq_iff f f', key_beq_iff k k')

-- A list without the entries that equal the one before them.
abbrev pub keep_from : Spot → List Spot → List Spot
keep_from p [] = []
keep_from p (q ∷ qs) = if spot_beq q p then keep_from p qs else q ∷ keep_from q qs

abbrev pub without_repeats : List Spot → List Spot
without_repeats [] = []
without_repeats (p ∷ ps) = p ∷ keep_from p ps

fill_name-same : (a : Option String) → fill_name a a ≡ a
fill_name-same none = refl
fill_name-same (some a) = refl

fill_name_of : {a b : Option String} → a ≡ b → fill_name b a ≡ b
fill_name_of {b = b} e = ap (λ x. fill_name b x) e ∙ fill_name-same b

pub line_spot-absorb :
    (ev : TraceEvent) (last : SourceLineEvent)
    → spot ev ≡ line_spot last
    → line_spot (absorb ev last) ≡ line_spot last
line_spot-absorb ev last e = cc (fill_name_of (ap (λ p. p.3.0) e), fill_name_of (ap (λ p. p.3.1) e))

pub same_entry-spot : (prev ev : TraceEvent) → same_entry prev ev ≡ true → spot ev ≡ spot prev
same_entry-spot prev ev h = (spot_beq_iff (spot ev) (spot prev)).0 h

spots_from :
    (get_line : String → ℕ → String) (last : SourceLineEvent) (prev : TraceEvent)
    (events : List TraceEvent)
    → line_spot last ≡ spot prev
    → map line_spot (deduplicate_from get_line last prev events)
      ≡ spot prev ∷ keep_from (spot prev) (map spot events)
unfolding deduplicate_from
spots_from get_line last prev [] e = ap (λ p. p ∷ []) e
spots_from get_line last prev (ev ∷ events) e = elim (Bool-cases (same_entry prev ev)) [
  | inl same ↦
      rw (same, deduplicate_from)
        (spots_from get_line (absorb ev last) prev events
          (line_spot-absorb ev last (same_entry-spot prev ev same ∙ sym e) ∙ e))
  | inr new ↦
      rw (new, deduplicate_from, e)
        (ap (λ l. spot prev ∷ l) (spots_from get_line (line_of get_line ev) ev events refl))
]

-- The places of the source lines are the places of the events in their order, each run of equal
-- neighbours taken once.
pub deduplicate-spots :
    (get_line : String → ℕ → String) (events : List TraceEvent)
    → map line_spot (deduplicate_to_source_lines get_line events)
      ≡ without_repeats (map spot events)
unfolding deduplicate_to_source_lines
deduplicate-spots get_line [] = refl
deduplicate-spots get_line (ev ∷ events) = spots_from get_line (line_of get_line ev) ev events refl
