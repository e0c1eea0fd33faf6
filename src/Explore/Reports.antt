-- ===== src/Explore/Reports.antt =====
-- frontrun/bytecode.py, explore_interleavings: what a result may say of the attempts that were made.
use frontrun.Prelude.{
  ℕ, suc, ◌≤◌, ◌≡◌, Bool, true, false, Option, none, some, List, [], ◌∷◌, nat_eq, length, add,
}
use frontrun.Explore.{Outside, InterleavingResult, draw_schedule, past_deadline}
use frontrun.Explore.Actions.{Ensures}
use frontrun.Explore.Fair.{IsFair, IsRandom}

-- Where a call from outside raises, `E` holds.
pub record IsOutside (E : Type 0) {W S Events : Type 0} (out : Outside W S Events) : Type 0 where
  pub random : IsRandom E out
  pub clock : (w : W) → Ensures E (λ _ _. Unit {0}) (out.clock w)
  pub run : (s : List ℕ) (w : W) → Ensures E (λ _ _. Unit {0}) (out.run_with_schedule s w)
  pub invariant : (x : S) (w : W) → Ensures E (λ _ _. Unit {0}) (out.invariant x w)

module _ {W S Events : Type 0} (out : Outside W S Events) where
  module _ (num_threads max_ops : ℕ) (deadline : Option ℕ) where
    -- One attempt, in time, of a fair schedule that was drawn: its run left what the invariant judged.
    pub record Tried (w : W) (schedule : List ℕ) (held : Bool) (w' : W) : Type 0 where
      pub begun : W
      pub drew : W
      pub over : W
      pub in_time : past_deadline out deadline w ≡ (some false, begun)
      pub drawn : draw_schedule out num_threads max_ops begun ≡ (some schedule, drew)
      pub fair : IsFair num_threads max_ops schedule
      pub left : S × Events
      pub ran : out.run_with_schedule schedule drew ≡ (some left, over)
      pub judged : out.invariant left.0 over ≡ (some held, w')

    -- Attempts after which the invariant held, the latest first.
    pub data Passed (w : W) : List (List ℕ) → W → Type 0 where
      untried : Passed w [] w
      passed :
          {ss : List (List ℕ)} {s : List ℕ} {w2 : W} (w1 : W)
          → Passed w ss w1
          → Tried w1 s true w2
          → Passed w (s ∷ ss) w2

  abbrev pub hashes : List (List ℕ) → List ℕ
  hashes [] = []
  hashes (s ∷ ss) = add (out.hash s) (hashes ss)

  pub record Holds (ss : List (List ℕ)) (r : InterleavingResult Events) : Type 0 where
    pub property_holds : r.property_holds ≡ true
    pub counterexample : r.counterexample ≡ none
    pub num_explored : r.num_explored ≡ length ss
    pub unique : r.unique_interleavings ≡ length (hashes ss)

  pub record Breaks (reproduce_on_failure : ℕ) (ss : List (List ℕ)) (s : List ℕ) (events : Events)
      (r : InterleavingResult Events) : Type 0 where
    pub property_holds : r.property_holds ≡ false
    pub counterexample : r.counterexample ≡ some s
    pub num_explored : r.num_explored ≡ suc (length ss)
    pub unique : r.unique_interleavings ≡ length (hashes (s ∷ ss))
    pub attempts : r.reproduction_attempts ≡ reproduce_on_failure
    pub successes : r.reproduction_successes ≤ reproduce_on_failure
    pub explanation :
        r.explanation
        ≡ some (record {
          events = events;
          num_explored = suc (length ss);
          attempts = reproduce_on_failure;
          successes = r.reproduction_successes;
        })

  module _ (num_threads max_attempts max_ops reproduce_on_failure : ℕ) (deadline : Option ℕ) where
    -- The attempts that led to a result: all were made or the time was over, or one broke the property.
    pub data Report (w : W) (r : InterleavingResult Events) (w' : W) : Type 0 where
      all_passed :
          (ss : List (List ℕ))
          → Passed num_threads max_ops deadline w ss w'
          → length ss ≡ max_attempts
          → Holds ss r
          → Report w r w'
      timed_out :
          (ss : List (List ℕ)) (w1 : W)
          → Passed num_threads max_ops deadline w ss w1
          → length ss ≤ max_attempts
          → past_deadline out deadline w1 ≡ (some true, w')
          → Holds ss r
          → Report w r w'
      broken :
          (ss : List (List ℕ)) (s : List ℕ) (w1 w2 : W)
          → Passed num_threads max_ops deadline w ss w1
          → (t : Tried num_threads max_ops deadline w1 s false w2) → suc (length ss) ≤ max_attempts
          → Breaks reproduce_on_failure ss s t.left.1 r
          → Report w r w'
