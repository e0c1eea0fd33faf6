-- ===== src/Trace/Collapse.antt =====
-- frontrun/_trace_format.py, `_collapse_runs`: what the entries shown stand for.
use mathlib.Core.List.{map, append_assoc}
use mathlib.Core.Path.{subst}
use frontrun.Prelude.{
  ℕ, ◌≤◌, ◌≡◌, refl, sym, ap, Bool, true, false, some, List, [], ◌∷◌, ◌++◌, length, nat_eq,
  nat_beq_iff, ◌==◌, All, arith, leb,
}
use frontrun.Trace.{SourceLineEvent}
use frontrun.Trace.Condense.{
  Item, line, collapsed, cap, last_of, show_run, show_runs, runs_from, show_lines, collapse_runs,
}

abbrev pub OfThread : ℕ → List SourceLineEvent → Type 0
OfThread t lines = All (λ e. e.thread_id ≡ t) lines

-- What is shown of the lines, in order: a line in its place, or a whole stretch of one thread's lines,
-- by its first line, the number of those left out and its last line.
pub data Shows : List Item → List SourceLineEvent → Type 0 where
  nothing : Shows [] []
  in_place :
      {shown : List Item} {lines : List SourceLineEvent} (e : SourceLineEvent)
      → Shows shown lines
      → Shows (line e ∷ shown) (e ∷ lines)
  shortened :
      {shown : List Item} {lines : List SourceLineEvent} (t : ℕ) (first : SourceLineEvent)
      (omitted : List SourceLineEvent) (last : SourceLineEvent)
      → 2 ≤ length omitted
      → OfThread t (first ∷ omitted ++ (last ∷ []))
      → Shows shown lines
      → Shows
          (line first ∷ collapsed (length omitted) (some t) ∷ line last ∷ shown)
          ((first ∷ omitted ++ (last ∷ [])) ++ lines)

-- The lines before the last one.
abbrev before_last : SourceLineEvent → List SourceLineEvent → List SourceLineEvent
before_last x [] = []
before_last x (y ∷ ys) = x ∷ before_last y ys

split_last :
    (x : SourceLineEvent) (xs : List SourceLineEvent)
    → before_last x xs ++ (last_of x xs ∷ []) ≡ x ∷ xs
split_last x [] = refl
split_last x (y ∷ ys) = ap (x ∷◌) (split_last y ys)

length-before_last :
    (x : SourceLineEvent) (xs : List SourceLineEvent) → length (before_last x xs) ≡ length xs
length-before_last x [] = refl
length-before_last x (y ∷ ys) = omega (arith, length-before_last y ys)

OfThread-snoc :
    (t : ℕ) (xs : List SourceLineEvent) (e : SourceLineEvent)
    → OfThread t xs
    → e.thread_id ≡ t
    → OfThread t (xs ++ (e ∷ []))
OfThread-snoc t [] e h k = (k, tt)
OfThread-snoc t (x ∷ xs) e h k = (h.0, OfThread-snoc t xs e h.1 k)

all_in_place :
    {shown : List Item} {lines : List SourceLineEvent} (run : List SourceLineEvent)
    → Shows shown lines
    → Shows (map line run ++ shown) (run ++ lines)
all_in_place [] h = h
all_in_place (x ∷ xs) h = Shows.in_place x (all_in_place xs h)

shorten :
    {shown : List Item} {lines : List SourceLineEvent} (t : ℕ) (x y : SourceLineEvent)
    (ys : List SourceLineEvent)
    → 2 ≤ length ys
    → OfThread t (x ∷ y ∷ ys)
    → Shows shown lines
    → Shows
        (line x ∷ collapsed (length ys) (some t) ∷ line (last_of y ys) ∷ shown)
        ((x ∷ y ∷ ys) ++ lines)
shorten {shown} {lines} t x y ys long one h =
    subst
      (λ n.
        Shows (line x ∷ collapsed n (some t) ∷ line (last_of y ys) ∷ shown) ((x ∷ y ∷ ys) ++ lines))
      (length-before_last y ys)
      (subst
        (λ l.
          Shows
            (line x ∷ collapsed (length (before_last y ys)) (some t) ∷ line (last_of y ys) ∷ shown)
            ((x ∷ l) ++ lines))
        (split_last y ys)
        (Shows.shortened t x (before_last y ys) (last_of y ys)
          (omega (arith, length-before_last y ys))
          (subst (λ l. OfThread t (x ∷ l)) (sym (split_last y ys)) one) h))

show_run-long :
    (t : ℕ) (x y z w : SourceLineEvent) (ws : List SourceLineEvent)
    → show_run (t, x ∷ y ∷ z ∷ w ∷ ws)
      ≡ line x ∷ collapsed (length (z ∷ w ∷ ws)) (some t) ∷ line (last_of y (z ∷ w ∷ ws)) ∷ []
unfolding show_run
show_run-long t x y z w ws =
    let long : leb (length (x ∷ y ∷ z ∷ w ∷ ws)) 3 ≡ false = ground arith in
    rw long
      (ap (λ n. line x ∷ collapsed n (some t) ∷ line (last_of y (z ∷ w ∷ ws)) ∷ []) (omega arith))

show_run-Shows :
    {shown : List Item} {lines : List SourceLineEvent} (t : ℕ) (run : List SourceLineEvent)
    → OfThread t run
    → Shows shown lines
    → Shows (show_run (t, run) ++ shown) (run ++ lines)
unfolding show_run
show_run-Shows t [] one h = h
show_run-Shows t (x ∷ []) one h = all_in_place (x ∷ []) h
show_run-Shows t (x ∷ y ∷ []) one h = all_in_place (x ∷ y ∷ []) h
show_run-Shows t (x ∷ y ∷ z ∷ []) one h = all_in_place (x ∷ y ∷ z ∷ []) h
show_run-Shows {shown} {lines} t (x ∷ y ∷ z ∷ w ∷ ws) one h =
    subst (λ l. Shows (l ++ shown) ((x ∷ y ∷ z ∷ w ∷ ws) ++ lines))
      (sym (show_run-long t x y z w ws)) (shorten t x y (z ∷ w ∷ ws) (omega arith) one h)

runs_from-Shows :
    (t : ℕ) (run events : List SourceLineEvent)
    → OfThread t run
    → Shows (show_runs (runs_from t run events)) (run ++ events)
unfolding runs_from show_runs
runs_from-Shows t run [] one = show_run-Shows t run one Shows.nothing
runs_from-Shows t run (ev ∷ events) one =
    by (ev.thread_id == t) refl (runs_from-Shows t (run ++ (ev ∷ [])) events)
      (runs_from-Shows ev.thread_id (ev ∷ []) events (refl, tt))
  where
    by :
        (b : Bool)
        → (ev.thread_id == t) ≡ b
        → (OfThread t (run ++ (ev ∷ []))
            → Shows
                (show_runs (runs_from t (run ++ (ev ∷ [])) events))
                ((run ++ (ev ∷ [])) ++ events))
        → Shows (show_runs (runs_from ev.thread_id (ev ∷ []) events)) (ev ∷ events)
        → Shows
            (show_runs (elim b [
              | true ↦ runs_from t (run ++ (ev ∷ [])) events
              | false ↦ (t, run) ∷ runs_from ev.thread_id (ev ∷ []) events
            ]))
            (run ++ (ev ∷ events))
    by true same longer next =
        subst (Shows (show_runs (runs_from t (run ++ (ev ∷ [])) events)))
          (append_assoc run (ev ∷ []) events)
          (longer (OfThread-snoc t run ev one ((nat_beq_iff ev.thread_id t).0 same)))
    by false other longer next = show_run-Shows t run one next

-- Where the collapsed runs fit into `max_lines`, the entries stand for exactly the lines given, in
-- order: each line is shown in its place, or it is of a stretch of four or more lines of one thread
-- of which the first and the last are shown, and between them the number of the others.
pub collapse_runs-Shows :
    (lines : List SourceLineEvent) (max_lines : ℕ)
    → length (show_lines lines) ≤ max_lines
    → Shows (collapse_runs lines max_lines) lines
unfolding collapse_runs cap
collapse_runs-Shows [] max_lines h = Shows.nothing
collapse_runs-Shows (ev ∷ events) max_lines h =
    ground (arith, runs_from-Shows ev.thread_id (ev ∷ []) events (refl, tt))
