-- ===== src/Trace/Halves.antt =====
-- frontrun/_trace_format.py, `_collapse_runs`: the entries that the final cap keeps and drops.
use native.Mathlib.Omega.{arith}
use Prim.Native.Nat.{◌%◌}
use frontrun.Prelude.{
  ltb, true, if◌then◌else◌, ℕ, zero, suc, ◌+◌, ◌-◌, ◌/◌, ◌≤◌, ◌<◌, ◌≡◌, refl, sym, ap, ◌∙◌, none,
  List, [], ◌∷◌, ◌++◌, length, take, drop, length-take, length-drop,
}
use frontrun.Trace.{SourceLineEvent}
use frontrun.Trace.Condense.{Item, collapsed, from_end, cap, show_lines, collapse_runs}

parts : (n : ℕ) (xs : List Item) → xs ≡ take n xs ++ drop n xs
parts zero xs = refl
parts (suc n) [] = refl
parts (suc n) (x ∷ xs) = ap (x ∷◌) (parts n xs)

drop-nil : (n : ℕ) → drop {A = Item} n [] ≡ []
drop-nil zero = refl
drop-nil (suc n) = refl

drop-drop : (n m k : ℕ) (xs : List Item) → k ≡ m + n → drop n (drop m xs) ≡ drop k xs
drop-drop n zero k xs e = ap (λ l. drop l xs) (omega (arith, e))
drop-drop n (suc m) zero xs e = absurd (omega (arith, e))
drop-drop n (suc m) (suc k) [] e = drop-nil n
drop-drop n (suc m) (suc k) (x ∷ xs) e = drop-drop n m k xs (omega (arith, e))

from_end-drop : (n : ℕ) (xs : List Item) → 0 < n → from_end n xs ≡ drop (length xs - n) xs
from_end-drop zero xs pos = absurd (omega arith)
from_end-drop (suc n) xs pos = refl

-- What is dropped of a list between its first and last parts.
abbrev IsCut : ℕ → List Item → List Item → Type 0
IsCut max_lines entries shown =
    (front : List Item) × (middle : List Item) × (back : List Item) × (entries
      ≡ front ++ (middle ++ back))
    × (shown ≡ front ++ (collapsed (length entries - max_lines) none ∷ back))
    × (length front ≡ max_lines / 2)
    × (length back ≡ max_lines / 2)
    × (length middle ≡ (length entries - max_lines) + max_lines % 2)

cap-IsCut :
    (max_lines : ℕ) (entries : List Item)
    → 2 ≤ max_lines
    → max_lines < length entries
    → IsCut max_lines entries (cap max_lines entries)
unfolding cap
cap-IsCut max_lines entries two long =
    let rest = drop half entries in
    let left = length rest - half in
    let rest_length = length-drop half entries in
    (
      take half entries,
      take left rest,
      drop left rest,
      parts half entries ∙ ap (λ l. take half entries ++ l) (parts left rest),
      kept,
      omega (arith, length-take half entries),
      omega (arith, rest_length, length-drop left rest),
      omega (arith, rest_length, length-take left rest),
    )
  where
    half : ℕ
    half = max_lines / 2

    too_long : ltb max_lines (length entries) ≡ true
    too_long = ground arith

    same_back : from_end half entries ≡ drop (length (drop half entries) - half) (drop half entries)
    same_back =
        from_end-drop half entries (omega arith)
        ∙ sym (
            drop-drop (length (drop half entries) - half) half (length entries - half) entries
              (omega (arith, length-drop half entries)))

    kept :
        (if ltb max_lines (length entries)
          then take half entries
            ++ (collapsed (length entries - max_lines) none ∷ from_end half entries)
          else entries)
        ≡ take half entries
          ++ (collapsed (length entries - max_lines) none
              ∷ drop (length (drop half entries) - half) (drop half entries))
    kept =
        rw too_long (
          ap (λ l. take half entries ++ (collapsed (length entries - max_lines) none ∷ l))
            same_back)

-- With two lines or more, where the collapsed runs do not fit into `max_lines`, what is shown is their
-- first and their last half of `max_lines`, rounded down, with one placeholder between them; the
-- number that it gives is that of the entries dropped, or one less where `max_lines` is odd.
pub collapse_runs-halves :
    (lines : List SourceLineEvent) (max_lines : ℕ)
    → 2 ≤ max_lines
    → max_lines < length (show_lines lines)
    → (front : List Item) × (middle : List Item) × (back : List Item) × (show_lines lines
        ≡ front ++ (middle ++ back))
      × (collapse_runs lines max_lines
          ≡ front ++ (collapsed (length (show_lines lines) - max_lines) none ∷ back))
      × (length front ≡ max_lines / 2)
      × (length back ≡ max_lines / 2)
      × (length middle ≡ (length (show_lines lines) - max_lines) + max_lines % 2)
unfolding collapse_runs
collapse_runs-halves [] max_lines two long = absurd (omega arith)
collapse_runs-halves (ev ∷ events) max_lines two long =
    cap-IsCut max_lines (show_lines (ev ∷ events)) two long
