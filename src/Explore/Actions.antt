-- ===== src/Explore/Actions.antt =====
-- Python code that calls what lies outside the program: it raises, or returns a value.
use frontrun.Prelude.{Option, none, some, ◌≡◌, refl}

-- `none` is an exception. What was done before it stays done.
abbrev pub Action : Type 0 → Type 0 → Type 0
Action W A = W → Option A × W

module _ {W : Type 0} where
  abbrev pub pure : {A : Type 0} → A → Action W A
  pure a w = (some a, w)

  abbrev pub raise : {A : Type 0} → Action W A
  raise w = (none, w)

  abbrev pub continue : {A B : Type 0} → Option A × W → (A → Action W B) → Option B × W
  continue (some a, w) f = f a w
  continue (none, w) f = (none, w)

  -- `try: … except Exception: pass`
  abbrev pub caught : {A : Type 0} → Option A × W → Option (Option A) × W
  caught (r, w) = (some r, w)

  abbrev pub attempt : {A : Type 0} → Action W A → Action W (Option A)
  attempt m w = caught (m w)

infixl 5 ◌>>=◌ ◌>>◌
abbrev pub ◌>>=◌ : {W A B : Type 0} → Action W A → (A → Action W B) → Action W B
◌>>=◌ m f w = continue (m w) f

abbrev pub ◌>>◌ : {W B : Type 0} → Action W (Unit {0}) → Action W B → Action W B
m >> k = m >>= λ _. k

-- What holds of an outcome: `E` where it raised, `Q` of what it returned.
module _ {W : Type 0} (E : Type 0) where
  abbrev pub Ensures : {A : Type 0} → (A → W → Type 0) → Option A × W → Type 0
  Ensures Q (none, w) = E
  Ensures Q (some a, w) = Q a w

  pub bind-Ensures :
      {A B : Type 0} (R : A → W → Type 0) (Q : B → W → Type 0) (m : Action W A) (f : A → Action W B)
      (w : W)
      → Ensures R (m w)
      → ((a : A) (w' : W) → m w ≡ (some a, w') → R a w' → Ensures Q (f a w'))
      → Ensures Q ((m >>= f) w)
  bind-Ensures R Q m f w h k = by (m w) refl h
    where
      by : (o : Option _ × W) → m w ≡ o → Ensures R o → Ensures Q (continue o f)
      by (none, w') e h = h
      by (some a, w') e h = k a w' e h

  pub Ensures-weaken :
      {A : Type 0} (R Q : A → W → Type 0) (o : Option A × W)
      → ((a : A) (w : W) → R a w → Q a w)
      → Ensures R o
      → Ensures Q o
  Ensures-weaken R Q (none, w) k h = h
  Ensures-weaken R Q (some a, w) k h = k a w h
