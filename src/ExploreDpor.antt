-- ===== src/ExploreDpor.antt =====
-- frontrun/dpor.py, explore_dpor: the loop over the executions that the engine asks for. The engine,
-- the run of an execution, the clock and the invariant come from outside.
pub mod Summary
pub mod Calm
pub mod Steps
pub mod Rounds
pub mod Ends
mod Tests
use frontrun.Prelude.{
  ℕ, zero, suc, ◌+◌, Bool, true, false, ◌&&◌, Option, none, some, List, [], ◌∷◌, ◌++◌,
  if◌then◌else◌, nat_eq, ◌==◌, ltb,
}
use frontrun.Explore.{InterleavingResult, Explanation, new_result}
use frontrun.Explore.Actions.{Action, pure, continue, attempt, ◌>>=◌, ◌>>◌}

-- What lies outside. `execute` is an execution of the threads on fresh state, with what the recorder
-- got; `replay` runs a schedule by opcodes; `set_pipe` lets the preload library write, or not.
pub record Outside (W S Events : Type 0) : Type 0 where
  pub clock : Action W ℕ
  pub begin_execution : Action W (Unit {0})
  pub next_execution : Action W Bool
  pub schedule_trace : Action W (List ℕ)
  pub execute : Action W (S × Events)
  pub replay : List ℕ → Action W S
  pub invariant : S → Action W Bool
  pub start_dispatcher : Action W (Unit {0})
  pub stop_dispatcher : Action W (Unit {0})
  pub clear_bridge : Action W (Unit {0})
  pub set_pipe : Bool → Action W (Unit {0})

pub record Options : Type 0 where
  pub reproduce_on_failure : ℕ
  pub stop_on_first : Bool
  pub detect_io : Bool
  pub total_timeout : Option ℕ

abbrev pub when {ℓ} : {A : Type ℓ} → Bool → A → A → A
when true a b = a
when false a b = b

-- `try: … finally: …`
abbrev pub then_finally : {W A : Type 0} → Option A → Option (Unit {0}) × W → Option A × W
then_finally r (some u, w) = (r, w)
then_finally r (none, w) = (none, w)

abbrev pub finally : {W A : Type 0} → Action W A → Action W (Unit {0}) → Action W A
finally m last w = let (r, w1) = m w in then_finally r (last w1)

abbrev pub tally : Option Bool → ℕ → ℕ
tally (some false) successes = suc successes
tally (some true) successes = successes
tally none successes = successes

abbrev pub or_first {ℓ} : {A : Type ℓ} → Option A → A → Option A
or_first none a = some a
or_first (some b) a = some b

module _ {Events : Type 0} where
  abbrev pub failed : List ℕ → InterleavingResult Events → InterleavingResult Events
  failed schedule r = record r {
    property_holds = false;
    failures = r.failures ++ ((r.num_explored, schedule) ∷ []);
    counterexample = or_first r.counterexample schedule;
  }

  abbrev pub explained : Events → InterleavingResult Events → InterleavingResult Events
  explained events r = record r {
    explanation = or_first r.explanation (record {
      events = events;
      num_explored = r.num_explored;
      attempts = r.reproduction_attempts;
      successes = r.reproduction_successes;
    });
  }

  abbrev pub explored : InterleavingResult Events → InterleavingResult Events
  explored r = record r { num_explored = suc r.num_explored }

module _ {W S Events : Type 0} (out : Outside W S Events) (options : Options) where
  abbrev pub if_detecting : Action W (Unit {0}) → Action W (Unit {0})
  if_detecting m = when options.detect_io m (pure tt)

  abbrev pub past_deadline : Option ℕ → Action W Bool
  past_deadline none = pure false
  past_deadline (some deadline) = do now ← out.clock; pure (ltb deadline now)

  -- One execution: whether the invariant holds of what it left, and what was recorded.
  unfoldable pub one_execution : Action W (Bool × Events)
  one_execution = do
    out.begin_execution
    if_detecting out.clear_bridge
    left ← out.execute
    holds ← out.invariant left.0
    pure (holds, left.1)

  abbrev pub replay_fails : List ℕ → Action W Bool
  replay_fails schedule = do state ← out.replay schedule; out.invariant state

  unfoldable pub replays : List ℕ → ℕ → ℕ → Action W ℕ
  replays schedule zero successes = pure successes
  replays schedule (suc n) successes = do
    held ← attempt (replay_fails schedule)
    replays schedule n (tally held successes)

  -- The replays, with the preload library's pipe closed.
  unfoldable pub reproduce :
      List ℕ → InterleavingResult Events → Action W (InterleavingResult Events)
  reproduce schedule r = do
    out.set_pipe false
    successes ← replays schedule options.reproduce_on_failure 0
    if_detecting (out.set_pipe true)
    pure (record r {
      reproduction_attempts = options.reproduce_on_failure;
      reproduction_successes = successes;
    })

  -- The counterexample is replayed once in all.
  unfoldable pub after_failure :
      Events → InterleavingResult Events → Action W (InterleavingResult Events)
  after_failure events r = do
    schedule ← out.schedule_trace
    r' ←
        when (ltb 0 options.reproduce_on_failure && (r.reproduction_attempts == 0))
          (reproduce schedule (failed schedule r)) (pure (failed schedule r))
    pure (explained events r')

  -- `while True:`, on fuel; `none` is a loop that would go on.
  unfoldable pub explore_loop :
      ℕ → Option ℕ → InterleavingResult Events → Action W (Option (InterleavingResult Events))
  explore_loop zero deadline r = pure none
  explore_loop (suc fuel) deadline r = do
    late ← past_deadline deadline
    when late (pure (some r)) (do
      judged ← one_execution
      r' ← when judged.0 (pure (explored r)) (after_failure judged.1 (explored r))
      when (when judged.0 false options.stop_on_first) (pure (some r')) (do
        more ← out.next_execution
        when more (explore_loop fuel deadline r') (pure (some r'))))

  abbrev pub deadline_of : Option ℕ → Action W (Option ℕ)
  deadline_of none = pure none
  deadline_of (some total_timeout) = do now ← out.clock; pure (some (now + total_timeout))

  unfoldable pub explore_dpor : ℕ → Action W (Option (InterleavingResult Events))
  explore_dpor fuel = do
    deadline ← deadline_of options.total_timeout
    if_detecting out.start_dispatcher
    finally (explore_loop fuel deadline new_result) (if_detecting out.stop_dispatcher)
