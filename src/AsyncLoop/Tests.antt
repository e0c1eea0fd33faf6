-- ===== src/AsyncLoop/Tests.antt =====
-- Task 1 waits, task 0 has its turn and pauses again.
use frontrun.Prelude.{
  ℕ, All, ◌<◌, ◌≡◌, refl, true, false, List, [], ◌∷◌, nat_eq, ◌==◌, arith, inl, contains,
}
use frontrun.AsyncLoop.{
  Loop, proceeded, parked, deadlocked, new, pause, wake, should_proceed, on_proceed, skip_done,
}
use frontrun.AsyncLoop.System.{Status, running, waiting, after, Run}
use frontrun.AsyncLoop.Deadlock.{Run-false_alarm}

abbrev schedule : List ℕ
schedule = 0 ∷ 1 ∷ []

abbrev waits_1 : Loop
waits_1 = (pause 1 (new schedule 2)).1

abbrev turn_0 : Loop
turn_0 = (pause 0 waits_1).1

abbrev statuses : ℕ → Status
statuses = after proceeded 0 (after parked 1 (λ t. running))

one_parks : pause 1 (new schedule 2) ≡ (parked, waits_1)
unfolding pause should_proceed skip_done contains
one_parks = refl

zero_proceeds : pause 0 waits_1 ≡ (proceeded, turn_0)
unfolding pause should_proceed on_proceed skip_done contains
zero_proceeds = refl

-- The second call of `pause` by task 0 is taken for a deadlock.
zero_deadlocks : (pause 0 turn_0).0 ≡ deadlocked
unfolding pause should_proceed on_proceed skip_done contains
zero_deadlocks = refl

entries_named : All (λ y. y < 2) turn_0.schedule
unfolding pause should_proceed on_proceed skip_done contains
entries_named = (omega arith, (omega arith, tt))

run : Run schedule 2 turn_0 statuses
run =
    Run.paused 0 (omega arith) refl zero_proceeds
      (Run.paused 1 (omega arith) refl one_parks Run.start)

Run-false_alarm_example :
    (x : ℕ) × ((x == 0) ≡ false) × (statuses x ≡ waiting true) × ((wake x turn_0).0 ≡ proceeded)
Run-false_alarm_example =
    Run-false_alarm 0 run (omega arith) entries_named (inl (refl, zero_deadlocks))
