-- ===== src/CoopQueue/Tests.antt =====
-- A queue of one place: a second item waits for the first to be taken.
use frontrun.Prelude.{ℕ, refl, true, false, Option, none, some, List, [], ◌∷◌, ◌++◌}
use frontrun.CoopQueue.{Inner, get, put, put_round}
use frontrun.CoopQueue.History.{Event, took, stored_item, Call, Run, IsHistory, Run-IsHistory}

abbrev take_one : Option ℕ → Option (ℕ × Option ℕ)
take_one none = none
take_one (some x) = some (x, none)

abbrev place : ℕ → Option ℕ → Option (Option ℕ)
place x none = some (some x)
place x (some y) = none

abbrev one_place : Inner ℕ (Option ℕ)
one_place = record { get = take_one; put = place }

abbrev events : List (Event ℕ)
events = ((([] ++ (stored_item 1 ∷ [])) ++ []) ++ (took 1 ∷ [])) ++ (stored_item 2 ∷ [])

run : Run one_place none events (some 2)
unfolding get put put_round
run = Run.then_call (Call.put_rounds false false false 2) refl (
    Run.then_call (Call.get_begins true true) refl (
      Run.then_call (Call.put_begins true true 2) refl
        (Run.then_call (Call.put_begins true true 1) refl Run.begun)))

Run-IsHistory_example : IsHistory one_place none events (some 2)
Run-IsHistory_example = Run-IsHistory one_place run
