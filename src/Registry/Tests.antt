-- ===== src/Registry/Tests.antt =====
-- The registry on two small files.
use frontrun.Prelude.{
  ◌≡◌, refl, Option, none, some, List, [], ◌∷◌, String, string_eq, ◌==◌, if◌then◌else◌, contains,
}
use frontrun.Registry.{get_marker}
use frontrun.Registry.Faithful.{scan_all, marker_in, get_marker-scan_all}

abbrev read : String → Option (List String)
read f = if f == "a.py" then some ("x = 1" ∷ "# frontrun: go" ∷ []) else none

abbrev search : String → Option String
search line = if line == "# frontrun: go" then some "go" else none

get_marker-scan_all_example :
    get_marker "a.py" 2 (scan_all read search ("a.py" ∷ "b.py" ∷ "a.py" ∷ [])) ≡ (
      if contains {A = String} "a.py" ("a.py" ∷ "b.py" ∷ "a.py" ∷ [])
      then marker_in read search (read "a.py") 2
      else none)
get_marker-scan_all_example =
    get_marker-scan_all read search ("a.py" ∷ "b.py" ∷ "a.py" ∷ []) "a.py" 2

second_line : marker_in read search (read "a.py") 2 ≡ some "go"
second_line = refl
