-- ===== src/PreloadIo/Lines.antt =====
-- frontrun/_preload_io.py: the loop over the buffer, and its lines.
use frontrun.Prelude.{
  by_test, ℕ, zero, suc, ◌≤◌, ◌<◌, ◌≡◌, refl, sym, ap, ◌∙◌, Option, none, some, List, [], ◌∷◌,
  nat_eq, ◌==◌, if◌then◌else◌, length, arith, Bool-cases, inl, inr,
}
use frontrun.PreloadIo.{Text, newline, longer, cut_line, then_lines, take_lines}

abbrev pub extend_first : ℕ → List Text × Text → List Text × Text
extend_first c ([], rest) = ([], c ∷ rest)
extend_first c (line ∷ lines, rest) = ((c ∷ line) ∷ lines, rest)

-- The lines of a text, without their ends, and what follows the last end.
unfoldable pub lines_of : Text → List Text × Text
lines_of [] = ([], [])
lines_of (c ∷ cs) =
    if c == newline then then_lines [] (lines_of cs) else extend_first c (lines_of cs)

-- The text by its first line.
of_cut : Text → Option (Text × Text) → List Text × Text
of_cut buf none = ([], buf)
of_cut buf (some (line, rest)) = then_lines line (lines_of rest)

lines_of-cut_line : (buf : Text) → lines_of buf ≡ of_cut buf (cut_line buf)
unfolding lines_of cut_line of_cut
lines_of-cut_line [] = refl
lines_of-cut_line (c ∷ cs) = elim (Bool-cases (c == newline)) [
  | inl e ↦ rw e refl
  | inr e ↦ rw e (ap (extend_first c) (lines_of-cut_line cs) ∙ by (cut_line cs))
]
  where
    by : (o : Option (Text × Text)) → extend_first c (of_cut cs o) ≡ of_cut (c ∷ cs) (longer c o)
    by none = refl
    by (some (line, rest)) = refl

-- What follows the first line is shorter.
IsShorter : Text → Option (Text × Text) → Type 0
IsShorter buf none = Unit
IsShorter buf (some (line, rest)) = length rest < length buf

cut_line-IsShorter : (buf : Text) → IsShorter buf (cut_line buf)
unfolding cut_line IsShorter
cut_line-IsShorter [] = tt
cut_line-IsShorter (c ∷ cs) =
    by_test (IsShorter (c ∷ cs)) (c == newline) (λ e. omega arith)
      (λ e. by (cut_line cs) (cut_line-IsShorter cs))
  where
    by : (o : Option (Text × Text)) → IsShorter cs o → IsShorter (c ∷ cs) (longer c o)
    by none h = tt
    by (some (line, rest)) h = omega (arith, h)

-- With the buffer's length as fuel, the loop takes the lines of the buffer.
pub take_lines-lines_of : (n : ℕ) (buf : Text) → length buf ≤ n → take_lines n buf ≡ lines_of buf
unfolding take_lines lines_of cut_line IsShorter of_cut
take_lines-lines_of zero [] h = refl
take_lines-lines_of zero (c ∷ cs) h = absurd (omega arith)
take_lines-lines_of (suc n) buf h =
    by (cut_line buf) (cut_line-IsShorter buf) (take_lines-lines_of n) ∙ sym (lines_of-cut_line buf)
  where
    round : Option (Text × Text) → List Text × Text
    round o = elim o [ none ↦ ([], buf) | some (line, rest) ↦ then_lines line (take_lines n rest) ]

    by :
        (o : Option (Text × Text))
        → IsShorter buf o
        → ((rest : Text) → length rest ≤ n → take_lines n rest ≡ lines_of rest)
        → round o ≡ of_cut buf o
    by none short rec = refl
    by (some (line, rest)) short rec = ap (then_lines line) (rec rest (omega (arith, short, h)))
