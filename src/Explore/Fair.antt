-- ===== src/Explore/Fair.antt =====
-- frontrun/bytecode.py, explore_interleavings: the schedules that are tried.
use frontrun.Prelude.{
  ℕ, zero, suc, ◌+◌, ◌-◌, ◌≤◌, ◌<◌, ◌≡◌, refl, ap, ◌&&◌, List, [], ◌∷◌, ◌++◌, if◌then◌else◌, nat_eq,
  ◌==◌, leb, ltb, arith, take, length, inl, inr, Bool-cases,
}
use frontrun.Explore.{Outside, count_from, range, max_rounds, draw_rounds, draw_schedule}
use frontrun.Explore.Actions.{Ensures, Ensures-weaken, bind-Ensures}

abbrev pub count : ℕ → List ℕ → ℕ
count t [] = 0
count t (x ∷ xs) = if x == t then suc (count t xs) else count t xs

count-append : (t : ℕ) (xs ys : List ℕ) → count t (xs ++ ys) ≡ count t xs + count t ys
count-append t [] ys = omega arith
count-append t (x ∷ xs) ys = ground (arith, count-append t xs ys)

count-take : (t k : ℕ) (xs : List ℕ) → count t (take k xs) ≤ count t xs
count-take t zero xs = omega arith
count-take t (suc k) [] = omega arith
count-take t (suc k) (x ∷ xs) = ground (arith, count-take t k xs)

-- A prefix of two lists: of the first alone, or the first and a prefix of the second.
count-take-append :
    (t k : ℕ) (xs ys : List ℕ)
    → count t (take k (xs ++ ys)) ≡ count t (take k xs) + count t (take (k - length xs) ys)
count-take-append t zero [] ys = ground arith
count-take-append t (suc k) [] ys = ground arith
count-take-append t zero (x ∷ xs) ys = ground arith
count-take-append t (suc k) (x ∷ xs) ys = ground (arith, count-take-append t k xs ys)

count-count_from :
    (t i n : ℕ) → count t (count_from i n) ≡ (if leb i t && ltb t (i + n) then 1 else 0)
count-count_from t i zero = ground arith
count-count_from t i (suc n) = ground (arith, count-count_from t (suc i) n)

abbrev pub IsPermutation : List ℕ → List ℕ → Type 0
IsPermutation xs ys = (t : ℕ) → count t xs ≡ count t ys

-- Some rounds, each a permutation of the threads.
pub data Rounds (n : ℕ) : ℕ → List ℕ → Type 0 where
  over : Rounds n 0 []
  round :
      (p : List ℕ) {s : List ℕ} {r : ℕ}
      → IsPermutation (range n) p
      → Rounds n r s
      → Rounds n (suc r) (p ++ s)

count-permutation :
    (n : ℕ) (p : List ℕ) (t : ℕ)
    → IsPermutation (range n) p
    → count t p ≡ (if ltb t n then 1 else 0)
count-permutation n p t h = ground (arith, h t, count-count_from t 0 n)

Rounds-count :
    {n r : ℕ} {s : List ℕ} → Rounds n r s → (t : ℕ) → count t s ≡ (if ltb t n then r else 0)
Rounds-count over t = ground arith
Rounds-count {n} (round p {s} h rest) t =
    ground (arith, count-append t p s, count-permutation n p t h, Rounds-count rest t)

take-ge : (k : ℕ) (xs : List ℕ) → length xs ≤ k → take k xs ≡ xs
take-ge zero [] h = refl
take-ge zero (x ∷ xs) h = absurd (omega arith)
take-ge (suc k) [] h = refl
take-ge (suc k) (x ∷ xs) h = ap (x ∷◌) (take-ge k xs (omega arith))

count-take-zero : (t j : ℕ) (xs : List ℕ) → j ≡ 0 → count t (take j xs) ≡ 0
count-take-zero t zero xs h = refl
count-take-zero t (suc j) xs h = absurd (omega arith)

-- In no prefix has a thread two turns more than another.
Rounds-balanced :
    {n r : ℕ} {s : List ℕ}
    → Rounds n r s
    → (k t u : ℕ) → t < n
    → u < n
    → count t (take k s) ≤ suc (count u (take k s))
Rounds-balanced over zero t u ht hu = omega arith
Rounds-balanced over (suc k) t u ht hu = omega arith
Rounds-balanced {n} (round p {s} h rest) k t u ht hu = elim (Bool-cases (leb k (length p))) [
  | inl short ↦ ground (
    arith,
    count-take-append t k p s,
    count-take t k p,
    count-permutation n p t h,
    count-take-zero t (k - length p) s (ground (arith, short)),
  )
  | inr long ↦ ground (
    arith,
    count-take-append t k p s,
    count-take-append u k p s,
    ap (count t) (take-ge k p (ground (arith, long))),
    ap (count u) (take-ge k p (ground (arith, long))),
    count-permutation n p t h,
    count-permutation n p u h,
    Rounds-balanced rest (k - length p) t u ht hu,
  )
]

-- A fair schedule of so many threads.
pub record IsFair (n max_ops : ℕ) (s : List ℕ) : Type 0 where
  pub rounds : ℕ
  pub some_round : 1 ≤ rounds
  pub few_rounds : rounds ≤ max_rounds max_ops n
  pub turns : (t : ℕ) → count t s ≡ (if ltb t n then rounds else 0)
  pub balanced : (k t u : ℕ) → t < n → u < n → count t (take k s) ≤ suc (count u (take k s))

-- What `random` promises, and `E` where a call from outside raises.
pub record IsRandom (E : Type 0) {W S Events : Type 0} (out : Outside W S Events) : Type 0 where
  pub randint : (n : ℕ) (w : W) → 1 ≤ n → Ensures E (λ m _. (1 ≤ m) × (m ≤ n)) (out.randint n w)
  pub shuffle : (xs : List ℕ) (w : W) → Ensures E (λ ys _. IsPermutation xs ys) (out.shuffle xs w)

module _ (E : Type 0) {W S Events : Type 0} (out : Outside W S Events)
    (random : IsRandom E out) where
  draw_rounds-Rounds :
      (n rounds : ℕ) (w : W) → Ensures E (λ s _. Rounds n rounds s) (draw_rounds out n rounds w)
  unfolding draw_rounds
  draw_rounds-Rounds n zero w = over
  draw_rounds-Rounds n (suc rounds) w =
      bind-Ensures E (λ p _. IsPermutation (range n) p) _ (out.shuffle (range n)) _ w
        (random.shuffle (range n) w)
        (λ p w1 _ h.
          bind-Ensures E (λ s _. Rounds n rounds s) _ (draw_rounds out n rounds) _ w1
            (draw_rounds-Rounds n rounds w1) (λ s w2 _ k. round p h k))

  -- A schedule that is drawn gives each thread one turn in each round and no prefix is unfair by more than one turn.
  pub draw_schedule-IsFair :
      (n max_ops : ℕ) (w : W)
      → 1 ≤ n
      → Ensures E (λ s _. IsFair n max_ops s) (draw_schedule out n max_ops w)
  unfolding draw_schedule
  draw_schedule-IsFair zero max_ops w h = absurd (omega arith)
  draw_schedule-IsFair (suc n) max_ops w h =
      bind-Ensures E (λ m _. (1 ≤ m) × (m ≤ max_rounds max_ops (suc n))) _
        (out.randint (max_rounds max_ops (suc n))) _ w
        (random.randint (max_rounds max_ops (suc n)) w (ground arith))
        (λ m w1 _ b.
          Ensures-weaken E (λ s _. Rounds (suc n) m s) _ (draw_rounds out (suc n) m w1)
            (λ s _ k. fair m b s k) (draw_rounds-Rounds (suc n) m w1))
    where
      fair :
          (m : ℕ)
          → (1 ≤ m) × (m ≤ max_rounds max_ops (suc n))
          → (s : List ℕ) → Rounds (suc n) m s
          → IsFair (suc n) max_ops s
      fair m b s k = record {
        rounds = m;
        some_round = b.0;
        few_rounds = b.1;
        turns = Rounds-count k;
        balanced = Rounds-balanced k;
      }
