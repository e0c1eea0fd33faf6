-- ===== src/Trace/Witnessed.antt =====
-- frontrun/_trace_format.py, `classify_conflict`: what the first indices of an attribute say.
use frontrun.Prelude.{
  ℕ, zero, suc, ◌+◌, ◌≤◌, ◌<◌, ◌≡◌, refl, sym, ap, ◌∙◌, Bool, true, false, ◌&&◌, ◌||◌, not, Option,
  none, some, List, [], ◌∷◌, ◌++◌, string_eq, nat_eq, nat_beq_iff, ◌==◌, if◌then◌else◌, is_some,
  lookup, put, lookup-put, min, take, drop, arith, Bool-cases, inl, inr,
}
use mathlib.Core.Path.{subst}
use frontrun.Trace.{Access}
use frontrun.Trace.Classify.{Accesses, is_read, is_write, firsts, reads_come_first, both_write}

-- Some access of the thread is of the kind.
abbrev pub any_of : (Access → Bool) → ℕ → Accesses → Bool
any_of p t [] = false
any_of p t ((u, a) ∷ xs) = (p a && u == t) || any_of p t xs

-- Both threads read, then both write: the accesses are cut where no write of the two has come.
abbrev pub IsLostUpdate : ℕ → ℕ → Accesses → Type 0
IsLostUpdate a b xs =
    (before : Accesses) × (since : Accesses) × (xs ≡ before ++ since)
    × ((any_of is_read a before && any_of is_read b before) ≡ true)
    × ((any_of is_write a before || any_of is_write b before) ≡ false)
    × ((any_of is_write a since && any_of is_write b since) ≡ true)

some_inj : {a b : ℕ} → some a ≡ some b → a ≡ b
some_inj e = cc e

-- The index of the first access of a kind, counted from `i`.
unfoldable pub first_from : (Access → Bool) → ℕ → ℕ → Accesses → Option ℕ
first_from p t i [] = none
first_from p t i ((u, a) ∷ xs) = if p a && u == t then some i else first_from p t (suc i) xs

abbrev or_first : Option ℕ → Option ℕ → Option ℕ
or_first none o = o
or_first (some i) o = some i

pub lookup-firsts :
    (p : Access → Bool) (t i : ℕ) (xs : Accesses) (m : List (ℕ × ℕ))
    → lookup t (firsts p i xs m) ≡ or_first (lookup t m) (first_from p t i xs)
unfolding firsts first_from
lookup-firsts p t i [] m = by (lookup t m)
  where
    by : (o : Option ℕ) → o ≡ or_first o none
    by none = refl
    by (some i) = refl
lookup-firsts p t i ((u, a) ∷ xs) m =
    lookup-firsts p t (suc i) xs (if p a && not (is_some (lookup u m)) then put u i m else m)
    ∙ step (p a) (lookup u m) refl
  where
    later : Option ℕ
    later = first_from p t (suc i) xs

    put_same : (u == t) ≡ true → lookup t (put u i m) ≡ some i
    put_same same = lookup-put u t i m ∙ ap (λ b. if b then some i else lookup t m) same

    put_other : (u == t) ≡ false → lookup t (put u i m) ≡ lookup t m
    put_other other = lookup-put u t i m ∙ ap (λ b. if b then some i else lookup t m) other

    step :
        (b : Bool) (o : Option ℕ)
        → lookup u m ≡ o
        → or_first (lookup t (if b && not (is_some o) then put u i m else m)) later
          ≡ or_first (lookup t m) (if b && u == t then some i else later)
    step false o e = refl
    step true (some j) e = elim (Bool-cases (u == t)) [
      | inl same ↦
          rw same (
            ap (λ o. or_first o later) (at_j same)
            ∙ ap (λ o. or_first o (some i)) (sym (at_j same)))
      | inr other ↦ rw other refl
    ]
      where
        at_j : (u == t) ≡ true → lookup t m ≡ some j
        at_j same = ap (λ k. lookup k m) (sym ((nat_beq_iff u t).0 same)) ∙ e
    step true none e = elim (Bool-cases (u == t)) [
      | inl same ↦ rw same (
          ap (λ o. or_first o later) (put_same same)
          ∙ ap (λ o. or_first o (some i)) (sym (at_none same)))
      | inr other ↦ rw other (ap (λ o. or_first o later) (put_other other))
    ]
      where
        at_none : (u == t) ≡ true → lookup t m ≡ none
        at_none same = ap (λ k. lookup k m) (sym ((nat_beq_iff u t).0 same)) ∙ e

first_from-ge :
    (p : Access → Bool) (t i : ℕ) (xs : Accesses) {r : ℕ} → first_from p t i xs ≡ some r → i ≤ r
unfolding first_from
first_from-ge p t i [] e = cc e
first_from-ge p t i ((u, a) ∷ xs) {r} e = elim (Bool-cases (p a && u == t)) [
  | inl h ↦ omega (
    arith,
    some_inj (subst (λ b. (if b then some i else first_from p t (suc i) xs) ≡ some r) h e),
  )
  | inr h ↦ omega (
    arith,
    first_from-ge p t (suc i) xs
        (subst (λ b. (if b then some i else first_from p t (suc i) xs) ≡ some r) h e),
  )
]

first_from-any :
    (p : Access → Bool) (t i : ℕ) (xs : Accesses) {r : ℕ}
    → first_from p t i xs ≡ some r
    → any_of p t xs ≡ true
unfolding first_from
first_from-any p t i [] e = cc e
first_from-any p t i ((u, a) ∷ xs) {r} e = elim (Bool-cases (p a && u == t)) [
  | inl h ↦ ap (λ b. b || any_of p t xs) h
  | inr h ↦
      ap (λ b. b || any_of p t xs) h
      ∙ first_from-any p t (suc i) xs
          (subst (λ b. (if b then some i else first_from p t (suc i) xs) ≡ some r) h e)
]

-- What the first index of a kind says of the accesses before and after a cut.
cut_at :
    (p : Access → Bool) (t i n : ℕ) (xs : Accesses) {r : ℕ}
    → first_from p t i xs ≡ some r
    → (r < i + n → any_of p t (take n xs) ≡ true)
      × (i + n ≤ r → any_of p t (take n xs) ≡ false)
      × (i + n ≤ r → any_of p t (drop n xs) ≡ true)
unfolding first_from
cut_at p t i n [] e = cc e
cut_at p t i zero ((u, a) ∷ xs) {r} e = (
  λ h. absurd (omega (arith, first_from-ge p t i ((u, a) ∷ xs) e)),
  λ h. refl,
  λ h. first_from-any p t i ((u, a) ∷ xs) e,
)
cut_at p t i (suc n) ((u, a) ∷ xs) {r} e = elim (Bool-cases (p a && u == t)) [
  | inl h ↦
      let here : i ≡ r =
        some_inj (subst (λ b. (if b then some i else first_from p t (suc i) xs) ≡ some r) h e) in
      (
        λ k. ap (λ b. b || any_of p t (take n xs)) h,
        λ k. absurd (omega (arith, here)),
        λ k. absurd (omega (arith, here)),
      )
  | inr h ↦
      let (below, none_yet, rest) =
        cut_at p t (suc i) n xs
          (subst (λ b. (if b then some i else first_from p t (suc i) xs) ≡ some r) h e) in
      (
        λ k. ap (λ b. b || any_of p t (take n xs)) h ∙ below (omega arith),
        λ k. ap (λ b. b || any_of p t (take n xs)) h ∙ none_yet (omega arith),
        λ k. rest (omega arith),
      )
]

take-drop : (n : ℕ) (xs : Accesses) → xs ≡ take n xs ++ drop n xs
take-drop zero xs = refl
take-drop (suc n) [] = refl
take-drop (suc n) (x ∷ xs) = ap (λ l. x ∷ l) (take-drop n xs)

-- The test on the first indices.
pub reads_come_first-IsLostUpdate :
    (a b : ℕ) (xs : Accesses)
    → reads_come_first
        (first_from is_read a 0 xs)
        (first_from is_read b 0 xs)
        (first_from is_write a 0 xs)
        (first_from is_write b 0 xs)
      ≡ true
    → IsLostUpdate a b xs
reads_come_first-IsLostUpdate a b xs =
    by (first_from is_read a 0 xs) (first_from is_read b 0 xs) (first_from is_write a 0 xs)
      (first_from is_write b 0 xs) refl refl refl refl
  where
    by :
        (r_a r_b w_a w_b : Option ℕ)
        → first_from is_read a 0 xs ≡ r_a
        → first_from is_read b 0 xs ≡ r_b
        → first_from is_write a 0 xs ≡ w_a
        → first_from is_write b 0 xs ≡ w_b
        → reads_come_first r_a r_b w_a w_b ≡ true
        → IsLostUpdate a b xs
    by (some r_a) (some r_b) (some w_a) (some w_b) ra rb wa wb h =
        let n : ℕ = min w_a w_b in
        let (ra_before, x1, x2) = cut_at is_read a 0 n xs ra in
        let (rb_before, y1, y2) = cut_at is_read b 0 n xs rb in
        let (z1, wa_not, wa_since) = cut_at is_write a 0 n xs wa in
        let (u1, wb_not, wb_since) = cut_at is_write b 0 n xs wb in
        (
          take n xs,
          drop n xs,
          take-drop n xs,
          ground (arith, h, ra_before (ground (arith, h)), rb_before (ground (arith, h))),
          ground (arith, wa_not (ground arith), wb_not (ground arith)),
          ground (arith, wa_since (ground arith), wb_since (ground arith)),
        )
    by none r_b w_a w_b ra rb wa wb h = cc h
    by (some r_a) none w_a w_b ra rb wa wb h = cc h
    by (some r_a) (some r_b) none w_b ra rb wa wb h = cc h
    by (some r_a) (some r_b) (some w_a) none ra rb wa wb h = cc h

pub both_write-any :
    (a b : ℕ) (xs : Accesses)
    → both_write (first_from is_write a 0 xs) (first_from is_write b 0 xs) ≡ true
    → (any_of is_write a xs && any_of is_write b xs) ≡ true
both_write-any a b xs = by (first_from is_write a 0 xs) (first_from is_write b 0 xs) refl refl
  where
    by :
        (w_a w_b : Option ℕ)
        → first_from is_write a 0 xs ≡ w_a
        → first_from is_write b 0 xs ≡ w_b
        → both_write w_a w_b ≡ true
        → (any_of is_write a xs && any_of is_write b xs) ≡ true
    by (some w_a) (some w_b) wa wb h =
        ground (arith, first_from-any is_write a 0 xs wa, first_from-any is_write b 0 xs wb)
    by none w_b wa wb h = cc h
    by (some w_a) none wa wb h = cc h
