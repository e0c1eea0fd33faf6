-- ===== src/Explore/Tests.antt =====
-- The explorer on a property that the third run breaks.
use frontrun.Prelude.{ℕ, suc, ◌≡◌, refl, Bool, Option, some, List, ltb, arith, nat_eq}
use frontrun.Explore.{Outside, deadline_of, explore_interleavings}
use frontrun.Explore.Actions.{Action, Ensures, pure}
use frontrun.Explore.Reports.{IsOutside, Report}
use frontrun.Explore.Sound.{explore_interleavings-Report}

-- The world counts the runs; one round is drawn, in order.
abbrev counting_run : List ℕ → Action ℕ (ℕ × ℕ)
counting_run s w = (some (w, w), suc w)

abbrev small : ℕ → Action ℕ Bool
small x w = (some (ltb x 2), w)

abbrev now : Action ℕ ℕ
now w = (some w, w)

abbrev counting : Outside ℕ ℕ ℕ
counting = record {
  randint = λ n. pure 1;
  shuffle = pure;
  clock = now;
  run_with_schedule = counting_run;
  invariant = small;
  hash = λ s. 0;
}

counting-IsOutside : IsOutside ⊥ counting
counting-IsOutside = record {
  random = record { randint = λ n w h. (omega arith, h); shuffle = λ xs w t. refl };
  clock = λ w. tt;
  run = λ s w. tt;
  invariant = λ x w. tt;
}

-- Without exceptions outside there is a result.
explore_interleavings-Report_example :
    Ensures ⊥
      (λ r w'.
        (deadline : Option ℕ) × (w1 : ℕ) × (deadline_of counting (some 9) 0 ≡ (some deadline, w1))
        × Report counting 2 5 10 4 deadline w1 r w')
      (explore_interleavings counting 2 5 10 4 (some 9) 0)
explore_interleavings-Report_example =
    explore_interleavings-Report counting ⊥ counting-IsOutside 2 5 10 4 (some 9) 0 (omega arith)
