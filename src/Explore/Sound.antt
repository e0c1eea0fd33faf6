-- ===== src/Explore/Sound.antt =====
-- frontrun/bytecode.py, explore_interleavings: what the result says of the attempts that were made.
use frontrun.Prelude.{
  ℕ, zero, suc, ◌+◌, ◌≤◌, ◌≡◌, refl, ap, Bool, true, false, Option, none, some, List, [], ◌∷◌,
  nat_eq, arith, length, add, if◌then◌else◌,
}
use frontrun.Explore.{
  Outside, InterleavingResult, new_result, draw_schedule, past_deadline, deadline_of, try_schedule,
  reproduce, replay, tally, found, failed, explored, ended, explore_loop, explore_interleavings,
}
use frontrun.Explore.Actions.{Action, Ensures, Ensures-weaken, bind-Ensures, pure}
use frontrun.Explore.Fair.{IsFair, draw_schedule-IsFair}
use frontrun.Explore.Reports.{IsOutside, Tried, Passed, hashes, Report}

module _ {W S Events : Type 0} (out : Outside W S Events) where
  -- What the loop keeps.
  record IsSoFar (ss : List (List ℕ)) (seen : List ℕ) (r : InterleavingResult Events) : Type 0 where
    property_holds : r.property_holds ≡ true
    counterexample : r.counterexample ≡ none
    num_explored : r.num_explored ≡ length ss
    hashed : seen ≡ hashes out ss

  module _ (E : Type 0) (outside : IsOutside E out) where
    past_deadline-Ensures :
        (deadline : Option ℕ) (w : W) → Ensures E (λ _ _. Unit {0}) (past_deadline out deadline w)
    past_deadline-Ensures none w = tt
    past_deadline-Ensures (some d) w =
        bind-Ensures E (λ _ _. Unit {0}) _ out.clock _ w (outside.clock w) (λ _ _ _ _. tt)

    tally-le : (held : Option Bool) (n : ℕ) → tally out held n ≤ suc n
    tally-le (some true) n = omega arith
    tally-le (some false) n = omega arith
    tally-le none n = omega arith

    reproduce-Ensures :
        (s : List ℕ) (n m : ℕ) (w : W) → Ensures E (λ k _. k ≤ m + n) (reproduce out s n m w)
    unfolding reproduce
    reproduce-Ensures s zero m w = omega arith
    reproduce-Ensures s (suc n) m w =
        let (held, w1) = replay out s w in
        Ensures-weaken E (λ k _. k ≤ tally out held m + n) (λ k _. k ≤ m + suc n)
          (reproduce out s n (tally out held m) w1) (λ k w2 h. ground (arith, h, tally-le held m))
          (reproduce-Ensures s n (tally out held m) w1)

    module _ (num_threads max_attempts max_ops reproduce_on_failure : ℕ) (deadline : Option ℕ)
        (some_thread : 1 ≤ num_threads) where
      abbrev Reports : W → InterleavingResult Events → W → Type 0
      Reports = Report out num_threads max_attempts max_ops reproduce_on_failure deadline

      module _ (ss : List (List ℕ)) (seen : List ℕ) (r : InterleavingResult Events) (w0 w : W)
          (p : Passed out num_threads max_ops deadline w0 ss w) (h : IsSoFar ss seen r) where
        -- A run is judged: the loop goes on, or the result tells the failure.
        judged-Report :
            (next : List ℕ → InterleavingResult Events → Action W (InterleavingResult Events))
            (s : List ℕ) (held : Bool) (w' : W)
            (t : Tried out num_threads max_ops deadline w s held w')
            → suc (length ss) ≤ max_attempts
            → ((r' : InterleavingResult Events)
                → Tried out num_threads max_ops deadline w s true w'
                → IsSoFar (s ∷ ss) (add (out.hash s) seen) r'
                → Ensures E (Reports w0) (next (add (out.hash s) seen) r' w'))
            → Ensures E (Reports w0) (
                (if held
                    then next (add (out.hash s) seen) (explored out r)
                    else found out reproduce_on_failure s t.left.1
                        (failed out s (add (out.hash s) seen) (explored out r)))
                  w')
        judged-Report next s true w' t n k = k (explored out r) t (record {
          property_holds = h.property_holds;
          counterexample = h.counterexample;
          num_explored = ap suc h.num_explored;
          hashed = ap (add (out.hash s)) h.hashed;
        })
        judged-Report next s false w' t n k =
            bind-Ensures E (λ m _. m ≤ 0 + reproduce_on_failure) _
              (reproduce out s reproduce_on_failure 0) _ w'
              (reproduce-Ensures s reproduce_on_failure 0 w')
              (λ m w2 _ few. Report.broken ss s w w' p t n (record {
                property_holds = refl;
                counterexample = refl;
                num_explored = ap suc h.num_explored;
                unique = ap (λ l. length (add (out.hash s) l)) h.hashed;
                attempts = refl;
                successes = omega arith;
                explanation =
                    ap
                      (λ k. some (record {
                        events = t.left.1;
                        num_explored = suc k;
                        attempts = reproduce_on_failure;
                        successes = m;
                      }))
                      h.num_explored;
              }))

        -- One attempt, where the attempts that are left are as they should.
        attempt-Report :
            (next : List ℕ → InterleavingResult Events → Action W (InterleavingResult Events))
            (late : Bool) (b : W)
            → past_deadline out deadline w ≡ (some late, b)
            → suc (length ss) ≤ max_attempts
            → ((s : List ℕ) (w' : W) (r' : InterleavingResult Events)
                → Tried out num_threads max_ops deadline w s true w'
                → IsSoFar (s ∷ ss) (add (out.hash s) seen) r'
                → Ensures E (Reports w0) (next (add (out.hash s) seen) r' w'))
            → Ensures E (Reports w0) (
                (if late
                    then pure (ended out seen r)
                    else try_schedule out num_threads max_ops next
                        (found out reproduce_on_failure)
                        seen
                        r)
                  b)
        attempt-Report next true b e n k = Report.timed_out ss w p (omega arith) e (record {
          property_holds = h.property_holds;
          counterexample = h.counterexample;
          num_explored = h.num_explored;
          unique = ap length h.hashed;
        })
        attempt-Report next false b e n k =
            bind-Ensures E (λ s _. IsFair num_threads max_ops s) _
              (draw_schedule out num_threads max_ops) _ b
              (draw_schedule-IsFair E out outside.random num_threads max_ops b some_thread)
              (λ s drew drawn fair.
                bind-Ensures E (λ _ _. Unit {0}) _ (out.run_with_schedule s) _ drew
                  (outside.run s drew)
                  (λ left over ran _.
                    bind-Ensures E (λ _ _. Unit {0}) _ (out.invariant left.0) _ over
                      (outside.invariant left.0 over)
                      (λ held w' judged _.
                        let t : Tried out num_threads max_ops deadline w s held w' = record {
                          begun = b;
                          drew = drew;
                          over = over;
                          in_time = e;
                          drawn = drawn;
                          fair = fair;
                          left = left;
                          ran = ran;
                          judged = judged;
                        } in
                        judged-Report next s held w' t n (k s w'))))

      loop-Report :
          (attempts : ℕ) (ss : List (List ℕ)) (seen : List ℕ) (r : InterleavingResult Events)
          (w0 w : W)
          → Passed out num_threads max_ops deadline w0 ss w
          → length ss + attempts ≡ max_attempts
          → IsSoFar ss seen r
          → Ensures E
              (Reports w0)
              (explore_loop out num_threads max_ops reproduce_on_failure deadline attempts seen r w)
      unfolding explore_loop
      loop-Report zero ss seen r w0 w p n h = Report.all_passed ss p (omega arith) (record {
        property_holds = h.property_holds;
        counterexample = h.counterexample;
        num_explored = h.num_explored;
        unique = ap length h.hashed;
      })
      loop-Report (suc attempts) ss seen r w0 w p n h =
          bind-Ensures E (λ _ _. Unit {0}) _ (past_deadline out deadline) _ w
            (past_deadline-Ensures deadline w)
            (λ late b e _.
              attempt-Report ss seen r w0 w p h
                (explore_loop out num_threads max_ops reproduce_on_failure deadline attempts) late b
                e (omega arith)
                (λ s w' r' t k.
                  loop-Report attempts (s ∷ ss) (add (out.hash s) seen) r' w0 w'
                    (Passed.passed w p t) (omega arith) k))

    deadline_of-Ensures :
        (total_timeout : Option ℕ) (w : W)
        → Ensures E (λ _ _. Unit {0}) (deadline_of out total_timeout w)
    deadline_of-Ensures none w = tt
    deadline_of-Ensures (some d) w =
        bind-Ensures E (λ _ _. Unit {0}) _ out.clock _ w (outside.clock w) (λ _ _ _ _. tt)

    -- With at least one thread, where an outcome E holds whenever a call from outside raises,
    -- explore_interleavings raises only where E holds, and what it returns tells the attempts
    -- that were made, each with a fair schedule that was drawn and run: that all of them passed
    -- and were as many as allowed or stopped by the deadline, or that all but the last passed,
    -- with the last schedule as counterexample and its events as explanation, and no more
    -- successful replays than replays.
    pub explore_interleavings-Report :
        (num_threads max_attempts max_ops reproduce_on_failure : ℕ) (total_timeout : Option ℕ)
        (w : W)
        → 1 ≤ num_threads
        → Ensures E
            (λ r w'.
              (deadline : Option ℕ) × (w1 : W) × (deadline_of out total_timeout w
                ≡ (some deadline, w1))
              × Report out num_threads max_attempts max_ops reproduce_on_failure deadline w1 r w')
            (explore_interleavings out num_threads max_attempts max_ops reproduce_on_failure
              total_timeout w)
    unfolding explore_interleavings
    explore_interleavings-Report num_threads max_attempts max_ops reproduce_on_failure total_timeout
          w n =
        bind-Ensures E (λ _ _. Unit {0}) _ (deadline_of out total_timeout) _ w
          (deadline_of-Ensures total_timeout w)
          (λ deadline w1 e _.
            Ensures-weaken E
              (Report out num_threads max_attempts max_ops reproduce_on_failure deadline w1) _
              (explore_loop out num_threads max_ops reproduce_on_failure deadline max_attempts []
                new_result w1)
              (λ r w' report. (deadline, w1, e, report))
              (loop-Report num_threads max_attempts max_ops reproduce_on_failure deadline n
                max_attempts [] [] new_result w1 w1 Passed.untried (omega arith)
                (record {
                  property_holds = refl;
                  counterexample = refl;
                  num_explored = refl;
                  hashed = refl;
                })))
