-- ===== src/Opcode/Grants.antt =====
-- frontrun/bytecode.py, OpcodeScheduler: the granted turns of a run, their order and number.
use mathlib.Core.Path.{subst}
use frontrun.Prelude.{
  ℕ, zero, suc, ◌+◌, ◌≤◌, ◌≡◌, refl, ◌↔◌, Bool, true, ◌&&◌, List, [], ◌∷◌, ◌++◌, not, ◌⊎◌, nat_eq,
  nat_beq_iff, ◌==◌, ltb, leb, length, keep, contains, arith, Bool-cases, inl, inr, take,
  length-take, get_elem?-ge, get_elem?-eq-none,
}
use frontrun.Opcode.{
  Scheduler, op_cap, active, is_active, range_from, extend_by, extend_schedule, index_error,
  time_out,
}
use frontrun.Opcode.Runs.{Run}
use frontrun.Opcode.Invariant.{Run-Inv}
use frontrun.Opcode.Follow.{Follows, start, ran, skipped}

-- In every run the turns granted so far are the entries of the schedule before the index, in
-- order, less entries that name threads which are done; and the schedule begins with the one given.
pub Run-Follows :
    {first : List ℕ} {n ops : ℕ} {s : Scheduler} {log : List ℕ}
    → Run first n ops s log
    → Follows s.threads_done (take s.index s.schedule) log
      × (s.index ≤ length s.schedule)
      × (take (length first) s.schedule ≡ first)
Run-Follows r = let inv = Run-Inv r in (inv.follows, inv.inside, inv.kept)

Follows-le : {done xs log : List ℕ} → Follows done xs log → length log ≤ length xs
Follows-le start = omega arith
Follows-le (ran f) = omega (arith, Follows-le f)
Follows-le (skipped d f) = omega (arith, Follows-le f)

-- A run grants no more turns than the given schedule has entries, or than the cap on operations
-- and one round of all threads.
pub Run-bounded :
    {first : List ℕ} {n ops : ℕ} {s : Scheduler} {log : List ℕ}
    → Run first n ops s log
    → (length log ≤ length first) ⊎ (length log ≤ op_cap first ops + n)
Run-bounded {first} {n} {ops} {s} {log} r =
    let inv = Run-Inv r in
    let le : length log ≤ length s.schedule =
      omega (arith, Follows-le inv.follows, length-take s.index s.schedule, inv.inside) in
    elim inv.bounded [ inl h ↦ inl (omega arith) | inr h ↦ inr (omega arith) ]

contains-keep :
    (p : ℕ → Bool) (t : ℕ) (xs : List ℕ) → contains t (keep p xs) ≡ (p t && contains t xs)
unfolding contains
contains-keep p t [] = ground arith
contains-keep p t (x ∷ xs) = elim (Bool-cases (x == t)) [
  | inl e ↦
      let e' = (nat_beq_iff x t).0 e in
      subst (λ k. contains k (keep p (x ∷ xs)) ≡ (p k && contains k (x ∷ xs))) e'
        (ground (arith, contains-keep p x xs, (nat_beq_iff x x).1 refl))
  | inr e ↦ ground (arith, contains-keep p t xs)
]

contains-range_from : (t i n : ℕ) → contains t (range_from i n) ≡ (leb i t && ltb t (i + n))
unfolding contains
contains-range_from t i zero = ground arith
contains-range_from t i (suc n) = ground (arith, contains-range_from t (suc i) n)

contains-active :
    (s : Scheduler) (t : ℕ)
    → contains t (active s) ≡ (ltb t s.num_threads && not (contains t s.threads_done))
unfolding active
contains-active s t = ground (
  arith,
  contains-keep (is_active s.threads_done) t (range_from 0 s.num_threads),
  contains-range_from t 0 s.num_threads,
)

-- Where the schedule is extended, one round is appended: every thread below `num_threads` that is
-- not done, and no other; nothing else of the scheduler changes.
extend_schedule_round :
    (s s' : Scheduler)
    → extend_schedule s ≡ (true, s')
    → (s' ≡ record s { schedule = s.schedule ++ active s })
      × ((t : ℕ) → contains t (active s) ≡ (ltb t s.num_threads && not (contains t s.threads_done)))
unfolding extend_schedule
extend_schedule_round s s' e = (by (active s) (ground arith), contains-active s)
  where
    by : (l : List ℕ) → extend_by s l ≡ (true, s') → s' ≡ record s { schedule = s.schedule ++ l }
    by [] q = cc
    by (x ∷ l) q = cc

-- The wait's timeout reads past the end of the schedule exactly where the run has consumed it.
pub time_out-index_error :
    {first : List ℕ} {n ops : ℕ} {s : Scheduler} {log : List ℕ}
    → Run first n ops s log
    → ((time_out s).0 ≡ index_error) ↔ (s.index ≡ length s.schedule)
unfolding time_out
time_out-index_error {s} r = (
  λ h. ground (arith, (Run-Inv r).inside, get_elem?-eq-none s.schedule s.index),
  λ h. ground (arith, get_elem?-ge s.schedule s.index (omega arith)),
)
