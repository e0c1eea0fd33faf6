-- ===== src/ExploreDpor/Rounds.antt =====
-- frontrun/dpor.py, explore_dpor: the rounds of the loop as a relation.
use frontrun.Prelude.{ℕ, ◌≡◌, ◌⊎◌, Bool, true, false, Option, none, some, List, [], ◌∷◌}
use frontrun.Explore.{InterleavingResult}
use frontrun.Explore.Actions.{pure}
use frontrun.ExploreDpor.{
  Outside, Options, when, past_deadline, one_execution, explored, after_failure,
}
use frontrun.ExploreDpor.Summary.{Verdict}

module _ {W S Events : Type 0} (out : Outside W S Events) (options : Options) where
  -- The engine's schedule of an execution that failed.
  abbrev pub IsVerdict : Bool → Events → W → Verdict Events → Type 0
  IsVerdict true events w v = v ≡ none
  IsVerdict false events w v =
      (schedule : List ℕ) × (w' : W) × (out.schedule_trace w ≡ (some schedule, w'))
      × (v ≡ some (schedule, events))

  module _ (deadline : Option ℕ) where
    -- One round up to the engine's next answer: an execution, in time, and what it is recorded as.
    pub record Round (w : W) (v : Verdict Events) (w' : W) : Type 0 where
      pub begun : W
      pub over : W
      pub held : Bool
      pub events : Events
      pub in_time : past_deadline out options deadline w ≡ (some false, begun)
      pub judged : one_execution out options begun ≡ (some (held, events), over)
      pub verdict : IsVerdict held events over v
      pub before : InterleavingResult Events
      pub after : InterleavingResult Events
      pub noted :
          when held
            (pure (explored before))
            (after_failure out options events (explored before))
            over
          ≡ (some after, w')

    -- The rounds that were gone on from, the latest first.
    pub data Rounds (w : W) : List (Verdict Events) → W → Type 0 where
      at_start : Rounds w [] w
      gone_on :
          {vs : List (Verdict Events)} {w3 : W} (v : Verdict Events) (w1 w2 : W)
          → Rounds w vs w1
          → Round w1 v w2
          → (options.stop_on_first ≡ false) ⊎ (v ≡ none)
          → out.next_execution w2 ≡ (some true, w3)
          → Rounds w (v ∷ vs) w3

    -- Why the loop ended.
    pub data Ended (w : W) : List (Verdict Events) → W → Type 0 where
      late :
          {vs : List (Verdict Events)} {w' : W} (w1 : W)
          → Rounds w vs w1
          → past_deadline out options deadline w1 ≡ (some true, w')
          → Ended w vs w'
      stopped :
          {vs : List (Verdict Events)} {w' : W} (failure : List ℕ × Events) (w1 : W)
          → Rounds w vs w1
          → Round w1 (some failure) w'
          → options.stop_on_first ≡ true
          → Ended w (some failure ∷ vs) w'
      exhausted :
          {vs : List (Verdict Events)} {w' : W} (v : Verdict Events) (w1 w2 : W)
          → Rounds w vs w1
          → Round w1 v w2
          → out.next_execution w2 ≡ (some false, w')
          → Ended w (v ∷ vs) w'
