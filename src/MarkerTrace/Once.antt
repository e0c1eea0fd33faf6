-- ===== src/MarkerTrace/Once.antt =====
-- frontrun/async_trace_markers.py: one line's wait, and the places that are processed.
use frontrun.Prelude.{
  ℕ, zero, suc, ◌+◌, ◌≤◌, ◌≡◌, refl, ap, ◌∙◌, Bool, true, false, ◌&&◌, Option, none, some, List, [],
  ◌∷◌, String, string_eq, ◌==◌, if◌then◌else◌, contains, contains-add, add, is_some, arith,
  Bool-cases, inl, inr,
}
use mathlib.Core.Path.{subst}
use frontrun.Registry.{Location, location_eq, location_beq_iff, scan_frame, get_marker}
use frontrun.Registry.Faithful.{marker_in, scan_all, get_marker-scan_all}
use frontrun.MarkerTrace.{
  Tracer, named, unprocessed, fresh_marker, Waited, wait_at, take_marker, previous_line, scanned,
  check_line,
}

-- How often the place was waited for.
abbrev pub times : Location → List (Location × String) → ℕ
times at [] = 0
times at ((place, name) ∷ ws) = if place == at then suc (times at ws) else times at ws

abbrev pub once : Bool → ℕ
once true = 1
once false = 0

abbrev pub to_list : Option (Location × String) → List (Location × String)
to_list none = []
to_list (some w) = w ∷ []

abbrev pub names : Location → Tracer → Bool
names at t = is_some (named (get_marker at.0 at.1 t.registry))

-- What a step does for the account of a place: the place it waits for was not processed, and is now.
pub record IsStep (t : Tracer) (w : Waited) : Type 0 where
  pub account :
      (at : Location)
      → times at (to_list w.0) + once (contains at t.processed) ≡ once (contains at w.1.processed)
  pub marked :
      (at : Location)
      → once (contains at w.1.processed) ≤ once (contains at t.processed) + once (names at t)
  pub registry : w.1.registry ≡ t.registry

stays : (t : Tracer) → IsStep t (none, t)
stays t = record { account = λ at. omega arith; marked = λ at. omega arith; registry = refl }

wait_at-IsStep :
    (place : Location) (name : String) (t : Tracer)
    → contains place t.processed ≡ false
    → names place t ≡ true
    → IsStep t (wait_at place name t)
wait_at-IsStep place name t e m = record { account = counted; marked = marked; registry = refl }
  where
    counted :
        (at : Location)
        → times at ((place, name) ∷ []) + once (contains at t.processed)
          ≡ once (contains at (add place t.processed))
    counted at = elim (Bool-cases (place == at)) [
      | inl same ↦ ground (
        arith,
        contains-add place at t.processed,
        subst (λ p. contains p t.processed ≡ false) ((location_beq_iff place at).0 same) e,
        same,
      )
      | inr other ↦ ground (arith, contains-add place at t.processed, other)
    ]

    marked :
        (at : Location)
        → once (contains at (add place t.processed))
          ≤ once (contains at t.processed) + once (names at t)
    marked at = elim (Bool-cases (place == at)) [
      | inl same ↦ ground (
        arith,
        contains-add place at t.processed,
        subst (λ p. names p t ≡ true) ((location_beq_iff place at).0 same) m,
        same,
      )
      | inr other ↦ ground (arith, contains-add place at t.processed, other)
    ]

take_marker-IsStep :
    (place : Location) (t : Tracer) (otherwise : Waited)
    → IsStep t otherwise
    → IsStep t (take_marker place (fresh_marker place t) t otherwise)
take_marker-IsStep place t otherwise h =
    by (named (get_marker place.0 place.1 t.registry)) refl (contains place t.processed) refl
  where
    by :
        (o : Option String)
        → named (get_marker place.0 place.1 t.registry) ≡ o
        → (b : Bool) → contains place t.processed ≡ b
        → IsStep t (take_marker place (unprocessed o b) t otherwise)
    by o d true e = h
    by none d false e = h
    by (some name) d false e = wait_at-IsStep place name t e (ap is_some d)

previous_line-IsStep : (file : String) (n : ℕ) (t : Tracer) → IsStep t (previous_line file n t)
unfolding previous_line
previous_line-IsStep file zero t = stays t
previous_line-IsStep file (suc zero) t = stays t
previous_line-IsStep file (suc (suc n)) t = take_marker-IsStep (file, suc n) t (none, t) (stays t)

-- A place with a named marker is processed once its line has run.
take_marker-IsProcessed :
    (place : Location) (t : Tracer) (otherwise : Waited)
    → IsStep t otherwise
    → names place t ≡ true
    → contains place (take_marker place (fresh_marker place t) t otherwise).1.processed ≡ true
take_marker-IsProcessed place t otherwise h m =
    by (named (get_marker place.0 place.1 t.registry)) m (contains place t.processed) refl
  where
    by :
        (o : Option String)
        → is_some o ≡ true
        → (b : Bool) → contains place t.processed ≡ b
        → contains place (take_marker place (unprocessed o b) t otherwise).1.processed ≡ true
    by o d true e = ground (arith, h.account place, e)
    by none d false e = ground (arith, d)
    by (some name) d false e =
        ground (arith, contains-add place place t.processed, (location_beq_iff place place).1 refl)

-- One line, where the registry holds what the files show.
module _ (read : String → Option (List String)) (search_marker : String → Option String) where
  pub check_line-IsStep :
      (e : Location) (t : Tracer)
      → IsStep (scanned read search_marker e.0 t) (check_line read search_marker e t)
  unfolding check_line
  check_line-IsStep (file, n) t =
      take_marker-IsStep (file, n) (scanned read search_marker file t)
        (previous_line file n (scanned read search_marker file t))
        (previous_line-IsStep file n (scanned read search_marker file t))

  pub check_line-IsProcessed :
      (e : Location) (t : Tracer)
      → names e (scanned read search_marker e.0 t) ≡ true
      → contains e (check_line read search_marker e t).1.processed ≡ true
  unfolding check_line
  check_line-IsProcessed (file, n) t =
      take_marker-IsProcessed (file, n) (scanned read search_marker file t)
        (previous_line file n (scanned read search_marker file t))
        (previous_line-IsStep file n (scanned read search_marker file t))

  -- The file has a named marker at this place.
  abbrev pub has_marker : Location → Bool
  has_marker at = is_some (named (marker_in read search_marker (read at.0) at.1))

  -- The tracer has scanned these files, and has processed only places with a marker.
  pub record IsTracing (files : List String) (t : Tracer) : Type 0 where
    pub registry : t.registry ≡ scan_all read search_marker files
    pub processed : (at : Location) → once (contains at t.processed) ≤ once (has_marker at)

  pub names-has_marker :
      (files : List String) (at : Location) (t : Tracer)
      → t.registry ≡ scan_all read search_marker files
      → names at t ≡ (contains at.0 files && has_marker at)
  names-has_marker files at t r =
      ap (λ g. is_some (named (get_marker at.0 at.1 g))) r
      ∙ ap (λ o. is_some (named o)) (get_marker-scan_all read search_marker files at.0 at.1)
      ∙ picked (contains at.0 files)
    where
      picked :
          (b : Bool)
          → is_some (named (if b then marker_in read search_marker (read at.0) at.1 else none))
            ≡ (b && has_marker at)
      picked true = refl
      picked false = refl

  pub check_line-IsTracing :
      (files : List String) (e : Location) (t : Tracer)
      → IsTracing files t
      → IsTracing (e.0 ∷ files) (check_line read search_marker e t).1
  check_line-IsTracing files e t h = record {
    registry = s.registry ∙ r;
    processed = λ at. ground (
      arith,
      s.marked at,
      h.processed at,
      names-has_marker (e.0 ∷ files) at (scanned read search_marker e.0 t) r,
    );
  }
    where
      s : IsStep (scanned read search_marker e.0 t) (check_line read search_marker e t)
      s = check_line-IsStep e t

      r : (scanned read search_marker e.0 t).registry ≡ scan_all read search_marker (e.0 ∷ files)
      r = ap (scan_frame read search_marker e.0) h.registry
