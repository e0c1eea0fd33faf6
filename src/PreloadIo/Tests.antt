-- ===== src/PreloadIo/Tests.antt =====
-- Two events come in three reads. Numbers are written as so many digits 1.
use frontrun.Prelude.{
  ℕ, zero, suc, ◌≡◌, refl, ap, true, Option, some, List, [], ◌∷◌, ◌++◌, All, nat_eq, length, arith,
}
use frontrun.PreloadIo.{
  Text, Event, Dispatcher, new, poll, start, reader_round, parse_lines, joined,
}
use frontrun.PreloadIo.Lines.{lines_of}
use frontrun.PreloadIo.Chunks.{Run, Run-events}
use frontrun.PreloadIo.Format.{IsPlain, formatted, IsWritable, Run-formatted}

abbrev show : ℕ → Text
show zero = []
show (suc n) = 49 ∷ show n

abbrev int : Text → Option ℕ
int t = some (length t)

abbrev decode : Text → Text
decode t = t

show-IsPlain : (n : ℕ) → All IsPlain (show n)
show-IsPlain zero = tt
show-IsPlain (suc n) = ((omega arith, refl, refl), show-IsPlain n)

length-show : (n : ℕ) → length (show n) ≡ n
length-show zero = refl
length-show (suc n) = omega (arith, length-show n)

int-show : (n : ℕ) → int (show n) ≡ some n
int-show n = ap some (length-show n)

-- `w` on a socket, then `r` on a file
abbrev sent : List (Event ℕ)
sent =
    record { kind = 119 ∷ []; resource_id = 115 ∷ 58 ∷ []; fd = 3; pid = 1; tid = 2 }
    ∷ record { kind = 114 ∷ []; resource_id = 102 ∷ []; fd = 4; pid = 1; tid = 1 }
    ∷ []

-- The first read ends inside the first line.
abbrev first_read : List Text
first_read = (119 ∷ 9 ∷ 115 ∷ []) ∷ []

abbrev second_read : List Text
second_read =
    (58 ∷ 9 ∷ 49 ∷ 49 ∷ 49 ∷ 9 ∷ 49 ∷ 9 ∷ 49 ∷ 49 ∷ 10 ∷ 114 ∷ 9 ∷ 102 ∷ [])
    ∷ (9 ∷ 49 ∷ 49 ∷ 49 ∷ 49 ∷ 9 ∷ 49 ∷ 9 ∷ 49 ∷ 10 ∷ [])
    ∷ []

abbrev begun : Dispatcher ℕ
begun = poll int decode true first_read (start new)

abbrev ended : Dispatcher ℕ
ended = (reader_round int decode true second_read begun).1

abbrev received : Text
received = ([] ++ joined first_read) ++ joined second_read

run : Run int decode received ended
unfolding start new
run = Run.looped true second_read (Run.polled true first_read (Run.started Run.created))

Run-events_example :
    (ended.events ≡ parse_lines int decode (lines_of received).0)
    × (ended.buf ≡ (lines_of received).1)
Run-events_example = Run-events int decode run

same_text : received ≡ formatted show sent
same_text = refl

writable : All (IsWritable show) sent
writable = (
  (((omega arith, refl, refl), tt), ((omega arith, refl, refl), ((omega arith, refl, refl), tt))),
  ((((omega arith, refl, refl), tt), ((omega arith, refl, refl), tt)), tt),
)

Run-formatted_example : (ended.events ≡ sent) × (ended.buf ≡ [])
Run-formatted_example =
    Run-formatted show int decode show-IsPlain int-show (λ t h. refl) sent run same_text writable
