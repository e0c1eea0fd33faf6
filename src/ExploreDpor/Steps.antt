-- ===== src/ExploreDpor/Steps.antt =====
-- frontrun/dpor.py, explore_dpor: the parts of one round, and what the engine has left to explore.
use frontrun.Prelude.{
  ℕ, zero, suc, ◌+◌, ◌≤◌, ◌≡◌, refl, sym, ap, Bool, true, false, ◌&&◌, Option, none, some, List,
  if◌then◌else◌, nat_eq, ◌==◌, ltb, arith,
}
use mathlib.Core.Option
use frontrun.Explore.{InterleavingResult, Explanation}
use frontrun.Explore.Actions.{Action, pure, ◌>>=◌, Ensures, Ensures-weaken, bind-Ensures}
use frontrun.ExploreDpor.{
  Outside, Options, when, if_detecting, past_deadline, one_execution, replay_fails, tally, replays,
  reproduce, or_first, failed, explained, after_failure, deadline_of,
}
use frontrun.ExploreDpor.Summary.{source, IsRecorded}
use frontrun.ExploreDpor.Calm.{IsCalm, pure-IsCalm, IsCalm-Ensures, bind-IsCalm, IsOutside}

module _ (E : Type 0) {W S Events : Type 0} (left : W → ℕ) (out : Outside W S Events)
    (options : Options) (outside : IsOutside E left out) where
  pub if_detecting-IsCalm :
      (m : Action W (Unit {0})) (w : W)
      → IsCalm E left m w
      → IsCalm E left (if_detecting out options m) w
  if_detecting-IsCalm m w h = by options.detect_io
    where
      by : (b : Bool) → IsCalm E left (when b m (pure tt)) w
      by true = h
      by false = pure-IsCalm E left tt w

  read_clock-IsCalm :
      {A : Type 0} (f : ℕ → A) (w : W) → IsCalm E left (out.clock >>= λ now. pure (f now)) w
  read_clock-IsCalm f w =
      bind-IsCalm E left out.clock _ w (outside.clock w) (λ now w'. pure-IsCalm E left (f now) w')

  pub past_deadline-IsCalm :
      (deadline : Option ℕ) (w : W) → IsCalm E left (past_deadline out options deadline) w
  past_deadline-IsCalm none w = pure-IsCalm E left false w
  past_deadline-IsCalm (some d) w = read_clock-IsCalm (ltb d) w

  pub deadline_of-IsCalm :
      (timeout : Option ℕ) (w : W) → IsCalm E left (deadline_of out options timeout) w
  deadline_of-IsCalm none w = pure-IsCalm E left none w
  deadline_of-IsCalm (some d) w = read_clock-IsCalm (λ now. some (now + d)) w

  pub one_execution-IsCalm : (w : W) → IsCalm E left (one_execution out options) w
  unfolding one_execution
  one_execution-IsCalm w =
      bind-IsCalm E left out.begin_execution _ w (outside.begin_execution w) (λ _ w1.
        bind-IsCalm E left (if_detecting out options out.clear_bridge) _ w1
          (if_detecting-IsCalm out.clear_bridge w1 (outside.clear_bridge w1))
          (λ _ w2. bind-IsCalm E left out.execute _ w2 (outside.execute w2) (λ x w3.
            bind-IsCalm E left (out.invariant x.0) _ w3 (outside.invariant x.0 w3)
              (λ b w4. pure-IsCalm E left (b, x.1) w4))))

  replay_fails-IsCalm : (s : List ℕ) (w : W) → IsCalm E left (replay_fails out options s) w
  replay_fails-IsCalm s w =
      bind-IsCalm E left (out.replay s) _ w (outside.replay s w) outside.invariant

  tally-le : (held : Option Bool) (n : ℕ) → tally held n ≤ suc n
  tally-le (some true) n = omega arith
  tally-le (some false) n = omega arith
  tally-le none n = omega arith

  replays-Ensures :
      (s : List ℕ) (n m : ℕ) (w : W)
      → Ensures E (λ k w'. (k ≤ m + n) × (left w' ≤ left w)) (replays out options s n m w)
  unfolding replays
  replays-Ensures s zero m w = (omega arith, omega arith)
  replays-Ensures s (suc n) m w =
      let (held, w1) = replay_fails out options s w in
      Ensures-weaken E (λ k w'. (k ≤ tally held m + n) × (left w' ≤ left w1))
        (λ k w'. (k ≤ m + suc n) × (left w' ≤ left w)) (replays out options s n (tally held m) w1)
        (λ k w2 h. (
          ground (arith, h.0, tally-le held m),
          ground (arith, h.1, (replay_fails-IsCalm s w).less),
        ))
        (replays-Ensures s n (tally held m) w1)

  module _ (events : Events) (schedule : List ℕ) (r : InterleavingResult Events) where
    abbrev Recorded : W → InterleavingResult Events → W → Type 0
    Recorded w r' w' =
        IsRecorded options schedule events r (explained events r') × (left w' ≤ left w)

    named_first :
        (x : Option (Explanation Events)) (e : Explanation Events)
        → Option.map source (or_first x e) ≡ some (elim x [ none ↦ source e | some y ↦ source y ])
    named_first none e = refl
    named_first (some x) e = refl

    abbrev is_new : Bool
    is_new = ltb 0 options.reproduce_on_failure && (r.reproduction_attempts == 0)

    replayed : InterleavingResult Events → ℕ → InterleavingResult Events
    replayed r' m = record r' {
      reproduction_attempts = options.reproduce_on_failure;
      reproduction_successes = m;
    }

    replayed-IsRecorded :
        (m : ℕ)
        → is_new ≡ true
        → m ≤ options.reproduce_on_failure
        → IsRecorded options schedule events r (explained events (replayed (failed schedule r) m))
    unfolding replayed
    replayed-IsRecorded m again few = record {
      num_explored = refl;
      failures = refl;
      property_holds = refl;
      counterexample = refl;
      explanation = named_first r.explanation _;
      attempts =
          sym (ap (λ b. if b then options.reproduce_on_failure else r.reproduction_attempts) again);
      successes = λ _. few;
    }

    failed-IsRecorded :
        is_new ≡ false → IsRecorded options schedule events r (explained events (failed schedule r))
    failed-IsRecorded again = record {
      num_explored = refl;
      failures = refl;
      property_holds = refl;
      counterexample = refl;
      explanation = named_first r.explanation _;
      attempts =
          sym (ap (λ b. if b then options.reproduce_on_failure else r.reproduction_attempts) again);
      successes = λ h. h;
    }

    reproduce-Recorded :
        (w : W)
        → is_new ≡ true
        → Ensures E (Recorded w) (reproduce out options schedule (failed schedule r) w)
    unfolding reproduce replayed
    reproduce-Recorded w again =
        bind-Ensures E (λ _ w'. left w' ≤ left w) _ (out.set_pipe false) _ w
          (IsCalm-Ensures E left (out.set_pipe false) w (outside.set_pipe false w))
          (λ _ w1 _ l1.
            bind-Ensures E (λ k w'. (k ≤ 0 + options.reproduce_on_failure) × (left w' ≤ left w1)) _
              (replays out options schedule options.reproduce_on_failure 0) _ w1
              (replays-Ensures schedule options.reproduce_on_failure 0 w1)
              (λ m w2 _ l2.
                bind-Ensures E (λ _ w'. left w' ≤ left w2) _
                  (if_detecting out options (out.set_pipe true)) _ w2
                  (IsCalm-Ensures E left (if_detecting out options (out.set_pipe true)) w2
                    (if_detecting-IsCalm (out.set_pipe true) w2 (outside.set_pipe true w2)))
                  (λ _ w3 _ l3. (replayed-IsRecorded m again (omega arith), omega arith))))

    maybe_reproduce-Recorded :
        (w : W)
        → Ensures E (Recorded w) (
            when is_new
              (reproduce out options schedule (failed schedule r))
              (pure (failed schedule r))
              w)
    maybe_reproduce-Recorded w = by is_new refl
      where
        by :
            (b : Bool)
            → is_new ≡ b
            → Ensures E (Recorded w) (
                when b
                  (reproduce out options schedule (failed schedule r))
                  (pure (failed schedule r))
                  w)
        by true e = reproduce-Recorded w e
        by false e = (failed-IsRecorded e, omega arith)

  abbrev pub IsTold :
      Events → InterleavingResult Events → W → InterleavingResult Events → W → Type 0
  IsTold events r w r' w' =
      (schedule : List ℕ) × (w1 : W) × (out.schedule_trace w ≡ (some schedule, w1))
      × IsRecorded options schedule events r r'
      × (left w' ≤ left w)

  -- What follows a failure records it, with the schedule that the engine tells.
  pub after_failure-IsTold :
      (events : Events) (r : InterleavingResult Events) (w : W)
      → Ensures E (IsTold events r w) (after_failure out options events r w)
  unfolding after_failure
  after_failure-IsTold events r w =
      bind-Ensures E (λ _ w'. left w' ≤ left w) _ out.schedule_trace _ w
        (IsCalm-Ensures E left out.schedule_trace w (outside.schedule_trace w))
        (λ schedule w1 told l1.
          bind-Ensures E (Recorded events schedule r w1) (IsTold events r w)
            (when (is_new events schedule r) (reproduce out options schedule (failed schedule r))
              (pure (failed schedule r)))
            (λ r'. pure (explained events r')) w1 (maybe_reproduce-Recorded events schedule r w1)
            (λ r' w2 _ k. (schedule, w1, told, k.0, omega arith)))
