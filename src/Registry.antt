-- ===== src/Registry.antt =====
-- frontrun/trace_markers.py, MarkerRegistry: the markers of each source file, found once.
-- Reading a file (linecache) and the regular expression of a marker are parameters.
pub mod Faithful
mod Tests
use frontrun.Prelude.{
  ℕ, zero, suc, ◌+◌, ◌≡◌, ◌↔◌, Bool, true, false, ◌||◌, ◌&&◌, Option, none, some, List, [], ◌∷◌,
  String, arith, string_eq, nat_eq, nat_beq, nat_beq_iff, Eq, ◌==◌, if◌then◌else◌, contains, lookup,
  put, add,
}

-- A file name and a line number.
abbrev pub Location : Type 0
Location = String × ℕ

abbrev pub location_beq : Location → Location → Bool
location_beq (f, n) (g, m) = (f == g) && nat_beq n m

pub location_beq_iff : (a b : Location) → (location_beq a b ≡ true) ↔ (a ≡ b)
location_beq_iff (f, n) (g, m) = ground (arith, string_eq.beq_iff f g)

instance abbrev pub location_eq : Eq Location
location_eq = record { beq = location_beq; beq_iff = location_beq_iff }

pub record Registry : Type 0 where
  pub markers : List (Location × String)
  pub scanned_files : List String

unfoldable pub empty : Registry
empty = record { markers = []; scanned_files = [] }

-- `linecache` on a file: its lines, or an exception. `MARKER_PATTERN.search` on a line: group 1.
module _ (read : String → Option (List String)) (search_marker : String → Option String) where
  abbrev pub keep_marker :
      Location → Option String → List (Location × String) → List (Location × String)
  keep_marker at none m = m
  keep_marker at (some name) m = put at name m

  -- The `while True` loop, from line `n` on; it stops at the first empty line.
  unfoldable pub scan_lines :
      String → ℕ → List String → List (Location × String) → List (Location × String)
  scan_lines file n [] m = m
  scan_lines file n (line ∷ rest) m =
      if line == ""
      then m
      else scan_lines file (suc n) rest (keep_marker (file, n) (search_marker line) m)

  abbrev pub scan_file :
      String → Option (List String) → List (Location × String) → List (Location × String)
  scan_file file none m = m
  scan_file file (some lines) m = scan_lines file 1 lines m

  unfoldable pub scan_frame : String → Registry → Registry
  scan_frame file r = if contains file r.scanned_files then r else record {
    markers = scan_file file (read file) r.markers;
    scanned_files = add file r.scanned_files;
  }

unfoldable pub get_marker : String → ℕ → Registry → Option String
get_marker file n r = lookup (file, n) r.markers
