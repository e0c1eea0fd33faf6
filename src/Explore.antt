-- ===== src/Explore.antt =====
-- frontrun/bytecode.py, explore_interleavings: random schedules, each tried on fresh state. What the run of a schedule
-- leaves behind comes from outside, as do the random numbers, the clock and the invariant.
pub mod Actions
pub mod Fair
pub mod Reports
pub mod Sound
mod Tests
use frontrun.Prelude.{
  ℕ, zero, suc, ◌+◌, ◌/◌, Bool, true, false, Option, none, some, List, [], ◌∷◌, ◌++◌, if◌then◌else◌,
  nat_eq, ◌==◌, leb, ltb, add, length,
}
use frontrun.Explore.Actions.{Action, pure, raise, attempt, ◌>>=◌, ◌>>◌}

-- The arguments that the explorer gives to format_trace, beside the number of threads.
pub record Explanation (Events : Type 0) : Type 0 where
  pub events : Events
  pub num_explored : ℕ
  pub attempts : ℕ
  pub successes : ℕ

pub record InterleavingResult (Events : Type 0) : Type 0 where
  pub property_holds : Bool
  pub counterexample : Option (List ℕ)
  pub num_explored : ℕ
  pub unique_interleavings : ℕ
  pub failures : List (ℕ × List ℕ)
  pub explanation : Option (Explanation Events)
  pub reproduction_attempts : ℕ
  pub reproduction_successes : ℕ

abbrev pub new_result : {Events : Type 0} → InterleavingResult Events
new_result = record {
  property_holds = true;
  counterexample = none;
  num_explored = 0;
  unique_interleavings = 0;
  failures = [];
  explanation = none;
  reproduction_attempts = 0;
  reproduction_successes = 0;
}

-- What lies outside: `randint` from 1 to its argument, `run` the schedule on fresh state, with what
-- the recorder got.
pub record Outside (W S Events : Type 0) : Type 0 where
  pub randint : ℕ → Action W ℕ
  pub shuffle : List ℕ → Action W (List ℕ)
  pub clock : Action W ℕ
  pub run_with_schedule : List ℕ → Action W (S × Events)
  pub invariant : S → Action W Bool
  pub hash : List ℕ → ℕ

-- `list(range(n))`
abbrev pub count_from : ℕ → ℕ → List ℕ
count_from i zero = []
count_from i (suc n) = i ∷ count_from (suc i) n

abbrev pub range : ℕ → List ℕ
range n = count_from 0 n

abbrev pub max_rounds : ℕ → ℕ → ℕ
max_rounds max_ops num_threads =
    let rounds = max_ops / num_threads in if leb 1 rounds then rounds else 1

module _ {W S Events : Type 0} (out : Outside W S Events) where
  -- One permutation of the threads for each round.
  unfoldable pub draw_rounds : ℕ → ℕ → Action W (List ℕ)
  draw_rounds num_threads zero = pure []
  draw_rounds num_threads (suc rounds) = do
    round_perm ← out.shuffle (range num_threads)
    rest ← draw_rounds num_threads rounds
    pure (round_perm ++ rest)

  -- Without threads the division raises.
  unfoldable pub draw_schedule : ℕ → ℕ → Action W (List ℕ)
  draw_schedule zero max_ops = raise
  draw_schedule (suc n) max_ops = do
    num_rounds ← out.randint (max_rounds max_ops (suc n))
    draw_rounds (suc n) num_rounds

  -- One replay: whether it failed, if it did not raise.
  abbrev pub check : S × Events → Action W Bool
  check (state, events) = out.invariant state

  abbrev pub replay : List ℕ → Action W Bool
  replay schedule = do ran ← out.run_with_schedule schedule; check ran

  abbrev pub tally : Option Bool → ℕ → ℕ
  tally (some false) successes = suc successes
  tally (some true) successes = successes
  tally none successes = successes

  unfoldable pub reproduce : List ℕ → ℕ → ℕ → Action W ℕ
  reproduce schedule zero successes = pure successes
  reproduce schedule (suc n) successes = do
    held ← attempt (replay schedule)
    reproduce schedule n (tally held successes)

  abbrev pub past_deadline : Option ℕ → Action W Bool
  past_deadline none = pure false
  past_deadline (some deadline) = do now ← out.clock; pure (ltb deadline now)

  abbrev pub with_explanation :
      Events → ℕ → ℕ → InterleavingResult Events → InterleavingResult Events
  with_explanation events attempts successes r = record r {
    reproduction_attempts = attempts;
    reproduction_successes = successes;
    explanation = some (record {
      events = events;
      num_explored = r.num_explored;
      attempts = attempts;
      successes = successes;
    });
  }

  -- What follows a failure.
  abbrev pub found :
      ℕ → List ℕ → Events → InterleavingResult Events → Action W (InterleavingResult Events)
  found reproduce_on_failure schedule events r = do
    successes ← reproduce schedule reproduce_on_failure 0
    pure (with_explanation events reproduce_on_failure successes r)

  abbrev pub failed : List ℕ → List ℕ → InterleavingResult Events → InterleavingResult Events
  failed schedule seen r = record r {
    property_holds = false;
    counterexample = some schedule;
    unique_interleavings = length seen;
  }

  abbrev pub explored : InterleavingResult Events → InterleavingResult Events
  explored r = record r { num_explored = suc r.num_explored }

  abbrev pub ended : List ℕ → InterleavingResult Events → InterleavingResult Events
  ended seen r = record r { unique_interleavings = length seen }

  -- One attempt; `next` are the attempts that are left, and `on_failure` what follows a failure.
  abbrev pub try_schedule :
      (num_threads max_ops : ℕ)
      (next : List ℕ → InterleavingResult Events → Action W (InterleavingResult Events))
      (on_failure : List ℕ
        → Events
        → InterleavingResult Events
        → Action W (InterleavingResult Events))
      → List ℕ
      → InterleavingResult Events
      → Action W (InterleavingResult Events)
  try_schedule num_threads max_ops next on_failure seen r = do
    schedule ← draw_schedule num_threads max_ops
    ran ← out.run_with_schedule schedule
    holds ← out.invariant ran.0
    if holds
        then next (add (out.hash schedule) seen) (explored r)
        else on_failure schedule ran.1 (failed schedule (add (out.hash schedule) seen) (explored r))

  module _ (num_threads max_ops reproduce_on_failure : ℕ) (total_deadline : Option ℕ) where
    -- The attempts that are left; `seen` is the set of hashes.
    unfoldable pub explore_loop :
        ℕ → List ℕ → InterleavingResult Events → Action W (InterleavingResult Events)
    explore_loop zero seen r = pure (ended seen r)
    explore_loop (suc attempts) seen r = do
      late ← past_deadline total_deadline
      if late
          then pure (ended seen r)
          else try_schedule num_threads max_ops (explore_loop attempts) (found reproduce_on_failure)
              seen r

  abbrev pub deadline_of : Option ℕ → Action W (Option ℕ)
  deadline_of none = pure none
  deadline_of (some total_timeout) = do now ← out.clock; pure (some (now + total_timeout))

  unfoldable pub explore_interleavings :
      (num_threads max_attempts max_ops reproduce_on_failure : ℕ) (total_timeout : Option ℕ)
      → Action W (InterleavingResult Events)
  explore_interleavings num_threads max_attempts max_ops reproduce_on_failure total_timeout = do
    total_deadline ← deadline_of total_timeout
    explore_loop num_threads max_ops reproduce_on_failure total_deadline max_attempts [] new_result
