-- ===== src/Trace/Cap.antt =====
-- frontrun/_trace_format.py, `_collapse_runs` and `condense_trace`: the length of what is shown.
use mathlib.Core.List.{map}
use native.Mathlib.Omega.{arith}
use frontrun.Prelude.{
  ℕ, zero, suc, ◌+◌, ◌-◌, ◌*◌, ◌/◌, ◌≤◌, ◌<◌, ◌≡◌, refl, none, List, [], ◌∷◌, length, take,
  length-append, length-take, length-drop,
}
use frontrun.Trace.{SourceLineEvent}
use frontrun.Trace.Condense.{
  Item, line, collapsed, from_end, cap, show_lines, collapse_runs, narrow, condense_trace,
}

length-map_line : (xs : List SourceLineEvent) → length (map line xs) ≡ length xs
length-map_line [] = refl
length-map_line (x ∷ xs) = omega (arith, length-map_line xs)

length-from_end :
    (n : ℕ) (result : List Item) → 0 < n → n ≤ length result → length (from_end n result) ≡ n
length-from_end zero result pos h = absurd (omega arith)
length-from_end (suc n) result pos h = omega (arith, length-drop (length result - suc n) result)

cap-small :
    (max_lines : ℕ) (result : List Item)
    → max_lines < 2
    → max_lines < length result
    → length (cap max_lines result) ≡ length result + 1
unfolding cap
cap-small zero result small long = ground arith
cap-small (suc zero) result small long = ground arith
cap-small (suc (suc m)) result small long = absurd (omega arith)

-- The length of the capped list, where the list is longer than `max_lines`.
cap-length :
    (max_lines : ℕ) (result : List Item)
    → max_lines < length result
    → ((2 ≤ max_lines) → length (cap max_lines result) ≡ 2 * (max_lines / 2) + 1)
      × ((max_lines < 2) → length (cap max_lines result) ≡ length result + 1)
unfolding cap
cap-length max_lines result long = (
  λ two. ground (
    arith,
    length-append (take (max_lines / 2) result)
        (collapsed (length result - max_lines) none ∷ from_end (max_lines / 2) result),
    length-take (max_lines / 2) result,
    length-from_end (max_lines / 2) result,
  ),
  λ small. cap-small max_lines result small long,
)

cap-bounded :
    (max_lines : ℕ) (result : List Item)
    → 2 ≤ max_lines
    → length (cap max_lines result) ≤ max_lines + 1
unfolding cap
cap-bounded max_lines result two = ground (arith, cap-length max_lines result)

collapse_runs-bounded :
    (lines : List SourceLineEvent) (max_lines : ℕ)
    → 2 ≤ max_lines
    → length (collapse_runs lines max_lines) ≤ max_lines + 1
unfolding collapse_runs
collapse_runs-bounded [] max_lines two = omega arith
collapse_runs-bounded (ev ∷ events) max_lines two =
    cap-bounded max_lines (show_lines (ev ∷ events)) two

-- From two lines on, a condensed trace is at most one line longer than `max_lines`.
pub condense_trace-bounded :
    (lines : List SourceLineEvent) (max_lines : ℕ)
    → 2 ≤ max_lines
    → length (condense_trace lines max_lines) ≤ max_lines + 1
unfolding condense_trace
condense_trace-bounded lines max_lines two =
    ground
      (arith, length-map_line (narrow lines), collapse_runs-bounded (narrow lines) max_lines two)
