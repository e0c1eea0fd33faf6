-- ===== src/Opcode/Follow.antt =====
-- A log of grants that follows the schedule.
use frontrun.Prelude.{ℕ, ◌≡◌, true, List, [], ◌∷◌, ◌++◌, nat_eq, contains}

-- The entries of a stretch of the schedule, in order: each was granted, or names a thread that is
-- done.
pub data Follows (done : List ℕ) : List ℕ → List ℕ → Type 0 where
  start : Follows done [] []
  ran : {x : ℕ} {xs log : List ℕ} → Follows done xs log → Follows done (x ∷ xs) (x ∷ log)
  skipped :
      {x : ℕ} {xs log : List ℕ}
      → contains x done ≡ true
      → Follows done xs log
      → Follows done (x ∷ xs) log

pub Follows-ran :
    {done xs log : List ℕ} (x : ℕ)
    → Follows done xs log
    → Follows done (xs ++ (x ∷ [])) (log ++ (x ∷ []))
Follows-ran x start = ran start
Follows-ran x (ran f) = ran (Follows-ran x f)
Follows-ran x (skipped d f) = skipped d (Follows-ran x f)

pub Follows-skipped :
    {done xs log : List ℕ} (x : ℕ)
    → contains x done ≡ true
    → Follows done xs log
    → Follows done (xs ++ (x ∷ [])) log
Follows-skipped x d start = skipped d start
Follows-skipped x d (ran f) = ran (Follows-skipped x d f)
Follows-skipped x d (skipped d' f) = skipped d' (Follows-skipped x d f)

pub Follows-mono :
    {done more xs log : List ℕ}
    → ((x : ℕ) → contains x done ≡ true → contains x more ≡ true)
    → Follows done xs log
    → Follows more xs log
Follows-mono h start = start
Follows-mono h (ran f) = ran (Follows-mono h f)
Follows-mono h (skipped {x} d f) = skipped (h x d) (Follows-mono h f)
