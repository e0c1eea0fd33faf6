-- ===== src/ExploreDpor/Ends.antt =====
-- frontrun/dpor.py, explore_dpor: the end of the loop, and its result.
use frontrun.Prelude.{ℕ, ◌≡◌, Option, none, some, List}
use frontrun.Explore.{InterleavingResult}
use frontrun.Explore.Actions.{Action}
use frontrun.ExploreDpor.{Outside, Options, if_detecting, deadline_of}
use frontrun.ExploreDpor.Summary.{Verdict, IsSummary}
use frontrun.ExploreDpor.Calm.{IsOutside}
use frontrun.ExploreDpor.Rounds.{Rounds, Ended}

module _ {W S Events : Type 0} (out : Outside W S Events) (options : Options) where
  module _ (E : Type 0) (left : W → ℕ) (outside : IsOutside E left out) (deadline : Option ℕ)
      (w0 : W) where
    -- The loop has returned, and its result sums up the rounds.
    abbrev pub IsResult : Option (InterleavingResult Events) → W → Type 0
    IsResult none w = ⊥
    IsResult (some r) w =
        (vs : List (Verdict Events)) × Ended out options deadline w0 vs w × IsSummary options vs r

    abbrev Loop : Type 0
    Loop = InterleavingResult Events → Action W (Option (InterleavingResult Events))

  module _ (E : Type 0) (left : W → ℕ) (outside : IsOutside E left out) where
    -- The rounds started after the dispatcher was, and it was stopped after the last.
    pub record IsExplored (w : W) (r : InterleavingResult Events) (w' : W) : Type 0 where
      pub deadline : Option ℕ
      pub timed : W
      pub begun : W
      pub ended : W
      pub set_deadline : deadline_of out options options.total_timeout w ≡ (some deadline, timed)
      pub started : if_detecting out options out.start_dispatcher timed ≡ (some tt, begun)
      pub verdicts : List (Verdict Events)
      pub rounds : Ended out options deadline begun verdicts ended
      pub summary : IsSummary options verdicts r
      pub stopped : if_detecting out options out.stop_dispatcher ended ≡ (some tt, w')

    abbrev pub Explored : W → Option (InterleavingResult Events) → W → Type 0
    Explored w none w' = ⊥
    Explored w (some r) w' = IsExplored w r w'
