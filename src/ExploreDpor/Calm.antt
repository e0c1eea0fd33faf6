-- ===== src/ExploreDpor/Calm.antt =====
-- frontrun/dpor.py, explore_dpor: what the calls from outside leave of the engine's executions.
use frontrun.Prelude.{ℕ, suc, ◌≤◌, ◌≡◌, Bool, true, Option, none, some, List, nat_eq, arith}
use frontrun.Explore.Actions.{Action, pure, continue, attempt, ◌>>=◌, Ensures}
use frontrun.ExploreDpor.{Outside}

-- An action that raises only where `E` holds, and leaves the engine no more to explore.
module _ (E : Type 0) {W : Type 0} (left : W → ℕ) where
  pub record IsCalm {A : Type 0} (m : Action W A) (w : W) : Type 0 where
    pub returns : Ensures E (λ _ _. Unit {0}) (m w)
    pub less : left (m w).1 ≤ left w

  pub pure-IsCalm : {A : Type 0} (a : A) (w : W) → IsCalm (pure a) w
  pure-IsCalm a w = record { returns = tt; less = omega arith }

  pub IsCalm-Ensures :
      {A : Type 0} (m : Action W A) (w : W)
      → IsCalm m w
      → Ensures E (λ _ w'. left w' ≤ left w) (m w)
  IsCalm-Ensures {A} m w h = by (m w) h.returns h.less
    where
      by :
          (o : Option A × W)
          → Ensures E (λ _ _. Unit {0}) o
          → left o.1 ≤ left w
          → Ensures E (λ _ w'. left w' ≤ left w) o
      by (none, w') e l = e
      by (some a, w') e l = l

  pub bind-IsCalm :
      {A B : Type 0} (m : Action W A) (f : A → Action W B) (w : W)
      → IsCalm m w
      → ((a : A) (w' : W) → IsCalm (f a) w')
      → IsCalm (m >>= f) w
  bind-IsCalm {A} {B} m f w h k = record {
    returns = (by (m w) h.returns h.less).0;
    less = (by (m w) h.returns h.less).1;
  }
    where
      then_less : (a : A) (w' : W) → left w' ≤ left w → IsCalm (f a) w' → left (f a w').1 ≤ left w
      then_less a w' l c = ground (arith, l, c.less)

      by :
          (o : Option A × W)
          → Ensures E (λ _ _. Unit {0}) o
          → left o.1 ≤ left w
          → Ensures E (λ _ _. Unit {0}) (continue o f) × (left (continue o f).1 ≤ left w)
      by (none, w') e l = (e, l)
      by (some a, w') e l = ((k a w').returns, then_less a w' l (k a w'))

  pub attempt-IsCalm : {A : Type 0} (m : Action W A) (w : W) → IsCalm m w → IsCalm (attempt m) w
  attempt-IsCalm m w h = record { returns = tt; less = h.less }

-- The calls from outside are calm, and each further execution uses one up.
pub record IsOutside (E : Type 0) {W S Events : Type 0} (left : W → ℕ) (out : Outside W S Events)
    : Type 0 where
  pub clock : (w : W) → IsCalm E left out.clock w
  pub begin_execution : (w : W) → IsCalm E left out.begin_execution w
  pub next_execution : (w : W) → IsCalm E left out.next_execution w
  pub uses_up : (w w' : W) → out.next_execution w ≡ (some true, w') → suc (left w') ≤ left w
  pub schedule_trace : (w : W) → IsCalm E left out.schedule_trace w
  pub execute : (w : W) → IsCalm E left out.execute w
  pub replay : (s : List ℕ) (w : W) → IsCalm E left (out.replay s) w
  pub invariant : (x : S) (w : W) → IsCalm E left (out.invariant x) w
  pub start_dispatcher : (w : W) → IsCalm E left out.start_dispatcher w
  pub stop_dispatcher : (w : W) → IsCalm E left out.stop_dispatcher w
  pub clear_bridge : (w : W) → IsCalm E left out.clear_bridge w
  pub set_pipe : (b : Bool) (w : W) → IsCalm E left (out.set_pipe b) w
