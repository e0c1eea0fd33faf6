-- ===== src/ExploreDpor/Tests.antt =====
-- An engine with three executions, of which the last two break the property.
use frontrun.Prelude.{
  ℕ, zero, suc, ◌≡◌, refl, Bool, true, false, Option, none, some, List, [], ◌∷◌, ltb,
}
use frontrun.Explore.{InterleavingResult}
use frontrun.Explore.Actions.{Action, pure}
use frontrun.ExploreDpor.{
  Outside, Options, explore_dpor, explore_loop, one_execution, after_failure, reproduce, replays,
}

abbrev next : Action ℕ Bool
next zero = (some false, 0)
next (suc n) = (some true, n)

abbrev seen : Action ℕ (ℕ × ℕ)
seen w = (some (w, w), w)

abbrev trace : Action ℕ (List ℕ)
trace w = (some (w ∷ []), w)

abbrev world : Action ℕ ℕ
world w = (some w, w)

abbrev counting : Outside ℕ ℕ ℕ
counting = record {
  clock = world;
  begin_execution = pure tt;
  next_execution = next;
  schedule_trace = trace;
  execute = seen;
  replay = λ s. world;
  invariant = λ x. pure (ltb 1 x);
  start_dispatcher = pure tt;
  stop_dispatcher = pure tt;
  clear_bridge = pure tt;
  set_pipe = λ b. pure tt;
}

abbrev same : ℕ → ℕ
same n = n

abbrev every_failure : Options
every_failure = record {
  reproduce_on_failure = 2;
  stop_on_first = false;
  detect_io = true;
  total_timeout = none;
}

abbrev failures : Option (Option (InterleavingResult ℕ)) × ℕ → List (ℕ × List ℕ)
failures (some (some r), w) = r.failures
failures o = []

two_failures : failures (explore_dpor counting every_failure 3 2) ≡ (2, 1 ∷ []) ∷ (3, 0 ∷ []) ∷ []
unfolding explore_dpor explore_loop one_execution after_failure reproduce replays
two_failures = refl
