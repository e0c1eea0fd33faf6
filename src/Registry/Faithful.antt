-- ===== src/Registry/Faithful.antt =====
-- frontrun/trace_markers.py, MarkerRegistry: the markers after any scans, against the files' lines.
use mathlib.Core.Path.{subst}
use frontrun.Prelude.{
  ℕ, suc, ◌<◌, ◌≡◌, refl, ap, ◌∙◌, Option, none, some, List, [], ◌∷◌, String, arith, string_eq,
  nat_eq, nat_beq, ◌==◌, if◌then◌else◌, contains, contains-add, lookup, lookup-put, Bool-cases, inl,
  inr,
}
use frontrun.Registry.{
  Location, location_beq, location_eq, Registry, empty, keep_marker, scan_lines, scan_file,
  scan_frame, get_marker,
}

abbrev or_else {ℓ} : {A : Type ℓ} → Option A → Option A → Option A
or_else none b = b
or_else (some a) b = some a

module _ (read : String → Option (List String)) (search_marker : String → Option String) where
  -- The marker of line `n` of a file whose lines from `i` on are given.
  abbrev pub marker_from : ℕ → List String → ℕ → Option String
  marker_from i [] n = none
  marker_from i (line ∷ rest) n =
      if line == ""
      then none
      else if nat_beq i n
      then search_marker line
      else marker_from (suc i) rest n

  abbrev pub marker_in : Option (List String) → ℕ → Option String
  marker_in none n = none
  marker_in (some lines) n = marker_from 1 lines n

  marker_from_before : (i : ℕ) (lines : List String) (n : ℕ) → n < i → marker_from i lines n ≡ none
  marker_from_before i [] n h = refl
  marker_from_before i (line ∷ rest) n h = ground (arith, marker_from_before (suc i) rest n)

  lookup-keep_marker :
      (f g : String) (i n : ℕ) (o : Option String) (m : List (Location × String))
      → lookup (g, n) (keep_marker read search_marker (f, i) o m)
        ≡ (if location_beq (f, i) (g, n) then or_else o (lookup (g, n) m) else lookup (g, n) m)
  lookup-keep_marker f g i n none m = ground arith
  lookup-keep_marker f g i n (some name) m = ground (arith, lookup-put (f, i) (g, n) name m)

  lookup-scan_lines :
      (f g : String) (i n : ℕ) (lines : List String) (m : List (Location × String))
      → lookup (g, n) (scan_lines read search_marker f i lines m)
        ≡ (if f == g then or_else (marker_from i lines n) (lookup (g, n) m) else lookup (g, n) m)
  unfolding scan_lines
  lookup-scan_lines f g i n [] m = ground arith
  lookup-scan_lines f g i n (line ∷ rest) m = ground (
    arith,
    lookup-scan_lines f g (suc i) n rest
        (keep_marker read search_marker (f, i) (search_marker line) m),
    lookup-keep_marker f g i n (search_marker line) m,
    marker_from_before (suc i) rest n,
  )

  lookup-scan_file :
      (f g : String) (n : ℕ) (o : Option (List String)) (m : List (Location × String))
      → lookup (g, n) (scan_file read search_marker f o m)
        ≡ (if f == g then or_else (marker_in o n) (lookup (g, n) m) else lookup (g, n) m)
  lookup-scan_file f g n none m = ground arith
  lookup-scan_file f g n (some lines) m = lookup-scan_lines f g 1 n lines m

  abbrev expected : List String → String → ℕ → Option String
  expected files g n = if contains g files then marker_in (read g) n else none

  abbrev IsFaithful : Registry → Type 0
  IsFaithful r = (g : String) (n : ℕ) → get_marker g n r ≡ expected r.scanned_files g n

  -- The frames' files, the latest first, as they come in.
  abbrev pub scan_all : List String → Registry
  scan_all [] = empty
  scan_all (f ∷ files) = scan_frame read search_marker f (scan_all files)

  scan_frame-IsFaithful :
      (f : String) (r : Registry) → IsFaithful r → IsFaithful (scan_frame read search_marker f r)
  unfolding scan_frame get_marker
  scan_frame-IsFaithful f r h g n = elim (Bool-cases (contains f r.scanned_files)) [
    | inl old ↦ rw (old, scan_frame) (h g n)
    | inr new ↦ elim (Bool-cases (f == g)) [
      | inl same ↦
          subst
            (λ k.
              get_marker k n (scan_frame read search_marker f r)
              ≡ expected (scan_frame read search_marker f r).scanned_files k n)
            ((string_eq.beq_iff f g).0 same)
            (rw (new, scan_frame)
              (ground (
                arith,
                lookup-scan_file f f n (read f) r.markers,
                contains-add f f r.scanned_files,
                string_eq.beq_iff f f,
                h f n,
              )))
      | inr other ↦
          rw (new, scan_frame)
            (ground (
              arith,
              lookup-scan_file f g n (read f) r.markers,
              contains-add f g r.scanned_files,
              h g n,
            ))
    ]
  ]

  scanned-scan_all :
      (g : String) (files : List String)
      → contains g (scan_all files).scanned_files ≡ contains g files
  unfolding contains scan_frame empty
  scanned-scan_all g [] = refl
  scanned-scan_all g (f ∷ files) = ground (
    arith,
    contains-add f g (scan_all files).scanned_files,
    scanned-scan_all g files,
    string_eq.beq_iff f g,
  )

  scan_all-IsFaithful : (files : List String) → IsFaithful (scan_all files)
  scan_all-IsFaithful [] g n = unfold get_marker empty lookup contains in refl
  scan_all-IsFaithful (f ∷ files) g n =
      scan_frame-IsFaithful f (scan_all files) (scan_all-IsFaithful files) g n

  -- After any sequence of scans, files met again included, a location has the marker that its line
  -- shows where the file was scanned, and none elsewhere.
  pub get_marker-scan_all :
      (files : List String) (g : String) (n : ℕ)
      → get_marker g n (scan_all files) ≡ (if contains g files then marker_in (read g) n else none)
  get_marker-scan_all files g n =
      scan_all-IsFaithful files g n
      ∙ ap (λ b. if b then marker_in (read g) n else none) (scanned-scan_all g files)
