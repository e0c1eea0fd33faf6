-- ===== src/Markers/Tests.antt =====
-- Two threads that both read before either writes, under the coordinator.
use frontrun.Prelude.{
  ℕ, ◌≤◌, ◌≡◌, ◌⊎◌, Bool, true, false, Option, some, List, [], ◌∷◌, String, length, take,
}
use frontrun.Markers.{
  Step, Coordinator, Failure, reported, init, give_back, wait_for_turn, report_error, is_finished,
}
use frontrun.Markers.Runs.{Run, here, next, turn, fail, lock}
use frontrun.Markers.Order.{Run-take}

abbrev step : String → String → Step
step t m = record { execution_name = t; marker_name = m }

abbrev lost_update : List Step
lost_update = step "t1" "read" ∷ step "t2" "read" ∷ step "t1" "write" ∷ step "t2" "write" ∷ []

abbrev at : ℕ → Option Failure → Bool → Coordinator
at n e held = record {
  steps = lost_update;
  current_step = n;
  completed = false;
  error = e;
  execution_lock = held;
}

-- Thread 1 passes its first marker, thread 2 comes too early with its second one, then thread 2
-- passes its first marker; an error comes, and thread 2 passes its second marker out of turn.
run :
    Run lost_update
      (at 2 (some (reported 7)) true)
      (step "t1" "read" ∷ step "t2" "read" ∷ [])
      (step "t2" "write" ∷ [])
unfolding wait_for_turn give_back init report_error
run =
    next
      (next
        (next
          (next
            (next (next (next here (turn (step "t1" "read") true)) (lock false))
              (turn (step "t2" "write") true))
            (turn (step "t2" "read") true))
          (lock false))
        (fail (reported 7)))
      (turn (step "t2" "write") true)

Run-take_example :
    (lost_update ≡ lost_update)
    × (step "t1" "read" ∷ step "t2" "read" ∷ [] ≡ take 2 lost_update)
    × (2 ≤ length lost_update)
    × ((step "t2" "write" ∷ [] ≡ []) ⊎ (is_finished (at 2 (some (reported 7)) true) ≡ true))
Run-take_example = Run-take run
