-- ===== src/MarkerTrace/Walk.antt =====
-- frontrun/async_trace_markers.py: the waits of a whole run of one thread, against what the files
-- hold.
use frontrun.Prelude.{
  ◌+◌, ◌≤◌, ◌≡◌, refl, ap, true, false, ◌&&◌, ◌||◌, not, is_some, map, ℕ, Bool, ◌∙◌, Option, none,
  some, List, [], ◌∷◌, String, string_eq, nat_eq, ◌==◌, contains, arith, Bool-cases, inl, inr,
}
use mathlib.Core.Path.{subst}
use frontrun.Registry.{Location, location_eq, location_beq_iff, scan_frame}
use frontrun.MarkerTrace.{
  Tracer, fresh_tracer, Walked, then_waits, scanned, LineEvent, turned_off, check_line, trace_line,
  trace_lines,
}
use frontrun.MarkerTrace.Once.{
  times, once, to_list, names, has_marker, IsTracing, names-has_marker, check_line-IsStep,
  check_line-IsProcessed, check_line-IsTracing,
}

times-then_waits :
    (at : Location) (w : Option (Location × String)) (rest : Walked)
    → times at (then_waits w rest).0 ≡ times at (to_list w) + times at rest.0
times-then_waits at none rest = omega arith
times-then_waits at (some wait) rest = ground arith

then_waits-processed :
    (w : Option (Location × String)) (rest : Walked) → (then_waits w rest).1 ≡ rest.1
then_waits-processed none rest = refl
then_waits-processed (some wait) rest = refl

contains-nil : (at : Location) → contains at [] ≡ false
unfolding contains
contains-nil at = refl

contains-cons :
    (at e : Location) (events : List Location)
    → contains at (e ∷ events) ≡ ((e == at) || contains at events)
unfolding contains
contains-cons at e events = refl

contains-head : (file : String) (files : List String) → contains file (file ∷ files) ≡ true
unfolding contains
contains-head file files = ground (arith, string_eq.beq_iff file file)

contains-frames : (frame : ℕ) (off : List ℕ) → off ≡ [] → contains frame off ≡ false
unfolding contains
contains-frames frame off e = ap (λ l. contains frame l) e

abbrev pub places : List LineEvent → List Location
places events = map (λ e. e.place) events

-- No wait of the run ends in an error.
abbrev pub is_calm : List LineEvent → Bool
is_calm [] = true
is_calm (e ∷ events) = not e.error && is_calm events

calm_cons :
    (e : LineEvent) (events : List LineEvent)
    → is_calm (e ∷ events) ≡ true
    → (e.error ≡ false) × (is_calm events ≡ true)
calm_cons e events h = ground (arith, h)

module _ (read : String → Option (List String)) (search_marker : String → Option String) where
  -- A run of one thread: the account of a place, what was processed, and what had to be.
  record IsWalk (off : List ℕ) (events : List LineEvent) (t : Tracer) (w : Walked) : Type 0 where
    account :
        (at : Location)
        → times at w.0 + once (contains at t.processed) ≡ once (contains at w.1.processed)
    processed :
        (at : Location) → once (contains at w.1.processed) ≤ once (has_marker read search_marker at)
    waited :
        off ≡ []
        → is_calm events ≡ true
        → (at : Location)
        → once (contains at (places events) && has_marker read search_marker at)
          ≤ once (contains at w.1.processed)

  -- A line without an error keeps the function in place.
  stays_on :
      (e : LineEvent) (off : List ℕ) (t : Tracer)
      → e.error ≡ false
      → turned_off e.frame (trace_line read search_marker e.error e.place t).1 off ≡ off
  unfolding trace_line
  stays_on e off t calm = by (is_some (check_line read search_marker e.place t).0) e.error calm
    where
      by :
          (waits error : Bool) → error ≡ false → turned_off e.frame (not (waits && error)) off ≡ off
      by true true c = cc c
      by true false c = refl
      by false error c = refl

  then_waits-IsWalk :
      (files : List String) (off off' : List ℕ) (e : LineEvent) (events : List LineEvent)
      (t : Tracer)
      → IsTracing read search_marker files t
      → (off ≡ [] → e.error ≡ false → off' ≡ [])
      → IsWalk off' events
          (check_line read search_marker e.place t).1
          (trace_lines read search_marker off' events (check_line read search_marker e.place t).1)
      → IsWalk off (e ∷ events) t (
          then_waits (check_line read search_marker e.place t).0 (
            trace_lines read search_marker off' events (check_line read search_marker e.place t).1))
  then_waits-IsWalk files off off' e events t h on k = record {
    account = account;
    processed = processed;
    waited = λ o c. let (no_error, calm) = calm_cons e events c in waited (on o no_error) calm;
  }
    where
      one : Option (Location × String)
      one = (check_line read search_marker e.place t).0

      rest : Walked
      rest = trace_lines read search_marker off' events (check_line read search_marker e.place t).1

      same_processed :
          (at : Location)
          → contains at (then_waits one rest).1.processed ≡ contains at rest.1.processed
      same_processed at = ap (λ r. contains at r.processed) (then_waits-processed one rest)

      now : Tracer
      now = scanned read search_marker e.place.0 t

      account :
          (at : Location)
          → times at (then_waits one rest).0 + once (contains at t.processed)
            ≡ once (contains at (then_waits one rest).1.processed)
      account at = ground (
        arith,
        times-then_waits at one rest,
        same_processed at,
        (check_line-IsStep read search_marker e.place t).account at,
        k.account at,
      )

      processed :
          (at : Location)
          → once (contains at (then_waits one rest).1.processed)
            ≤ once (has_marker read search_marker at)
      processed at = ground (arith, same_processed at, k.processed at)

      waited :
          off' ≡ []
          → is_calm events ≡ true
          → (at : Location)
          → once (contains at (places (e ∷ events)) && has_marker read search_marker at)
            ≤ once (contains at (then_waits one rest).1.processed)
      waited o c at = elim (Bool-cases (e.place == at)) [
        | inl same ↦ ground (
          arith,
          same_processed at,
          k.account at,
          subst
              (λ p.
                names p now ≡ true
                → contains p (check_line read search_marker e.place t).1.processed ≡ true)
              ((location_beq_iff e.place at).0 same)
              (check_line-IsProcessed read search_marker e.place t),
          names-has_marker read search_marker (e.place.0 ∷ files) at now
              (ap (scan_frame read search_marker e.place.0) h.registry),
          subst (λ p. contains p.0 (e.place.0 ∷ files) ≡ true)
              ((location_beq_iff e.place at).0 same) (contains-head e.place.0 files),
        )
        | inr other ↦ ground (
          arith,
          same_processed at,
          contains-cons at e.place (places events),
          k.waited o c at,
          other,
        )
      ]

  trace_lines-IsWalk :
      (files : List String) (off : List ℕ) (events : List LineEvent) (t : Tracer)
      → IsTracing read search_marker files t
      → IsWalk off events t (trace_lines read search_marker off events t)
  unfolding trace_line
  trace_lines-IsWalk files off [] t h = record {
    account = λ at. omega arith;
    processed = h.processed;
    waited = λ o c at. ground (arith, contains-nil at);
  }
  trace_lines-IsWalk files off (e ∷ events) t h =
      let off' = turned_off e.frame (trace_line read search_marker e.error e.place t).1 off in
      by (contains e.frame off && e.left_out) refl (trace_lines-IsWalk files off events t h) (
        then_waits-IsWalk files off off' e events t h (λ o c. stays_on e off t c ∙ o)
          (trace_lines-IsWalk (e.place.0 ∷ files) off' events
            (check_line read search_marker e.place t).1
            (check_line-IsTracing read search_marker files e.place t h)))
    where
      none_off : contains e.frame off ≡ false → (contains e.frame off && e.left_out) ≡ true → ⊥
      none_off a b = ground (arith, a, b)

      by :
          (b : Bool)
          → (contains e.frame off && e.left_out) ≡ b
          → IsWalk off events t (trace_lines read search_marker off events t)
          → IsWalk off (e ∷ events) t (
              then_waits (trace_line read search_marker e.error e.place t).0.0 (
                trace_lines read search_marker
                  (turned_off e.frame (trace_line read search_marker e.error e.place t).1 off)
                  events
                  (trace_line read search_marker e.error e.place t).0.1))
          → IsWalk off (e ∷ events) t (elim b [
            | true ↦ trace_lines read search_marker off events t
            | false ↦ then_waits (trace_line read search_marker e.error e.place t).0.0 (
                trace_lines read search_marker
                  (turned_off e.frame (trace_line read search_marker e.error e.place t).1 off)
                  events
                  (trace_line read search_marker e.error e.place t).0.1)
          ])
      by true left_out k w = record {
        account = k.account;
        processed = k.processed;
        waited = λ o c at. absurd (none_off (contains-frames e.frame off o) left_out);
      }
      by false called k w = w

  -- A thread that runs lines, in any order and any number of times, waits for a turn at a place at
  -- most once, and never at a place that has no marker of nonempty name; where no wait ends in an
  -- error it waits at least once at each place with such a marker whose line it ran. After an error
  -- the interpreter may leave the trace function out of the frame, or call it again.
  pub trace_lines-waits_once :
      (events : List LineEvent) (at : Location)
      → (times at (trace_lines read search_marker [] events fresh_tracer).0
          ≤ once (has_marker read search_marker at))
        × (once
              (is_calm events && (contains at (places events) && has_marker read search_marker at))
            ≤ times at (trace_lines read search_marker [] events fresh_tracer).0)
  trace_lines-waits_once events at = (
    ground (arith, contains-nil at, k.account at, k.processed at),
    elim (Bool-cases (is_calm events)) [
      | inl c ↦ ground (arith, contains-nil at, k.account at, k.waited refl c at)
      | inr c ↦ ground (arith, c)
    ],
  )
    where
      k : IsWalk [] events fresh_tracer (trace_lines read search_marker [] events fresh_tracer)
      k =
          trace_lines-IsWalk [] [] events fresh_tracer
            (record { registry = refl; processed = λ place. ground (arith, contains-nil place) })
