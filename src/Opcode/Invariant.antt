-- ===== src/Opcode/Invariant.antt =====
-- frontrun/bytecode.py, OpcodeScheduler: the invariant of a run, round by round.
use frontrun.Prelude.{
  ℕ, zero, suc, ◌+◌, ◌≤◌, ◌≡◌, refl, ap, sym, ◌∙◌, Option, some, List, [], ◌∷◌, ◌++◌, ◌⊎◌, nat_eq,
  length, get_elem?, contains, contains-add, arith, Bool-cases, Option-cases, inl, inr, take,
  take-suc, take-append, get_elem?-lt, length-append, take-length,
}
use mathlib.Core.Path.{subst}
use mathlib.Core.Option.{some-injective}
use frontrun.Opcode.{
  Scheduler, Failure, deadlock, op_cap, init, active, Round, granted, refused, again, parked,
  index_error, go_on, round, wait_for_turn, time_out, mark_done, report_error,
}
use frontrun.Opcode.Effect.{Taken, round-Taken, round-Grows, round-same, length-active}
use frontrun.Opcode.Follow.{Follows, start, Follows-ran, Follows-skipped, Follows-mono}
use frontrun.Opcode.Runs.{note, Step, turn, timeout, done, fail, Run, here, next}

pub record Inv (first : List ℕ) (n ops : ℕ) (s : Scheduler) (log : List ℕ) : Type 0 where
  pub cap : s.max_ops ≡ ops
  pub threads : s.num_threads ≡ n
  pub inside : s.index ≤ length s.schedule
  pub bounded : (length s.schedule ≤ length first) ⊎ (length s.schedule ≤ ops + n)
  pub kept : take (length first) s.schedule ≡ first
  pub long : length first ≤ length s.schedule
  pub follows : Follows s.threads_done (take s.index s.schedule) log

module _ {first : List ℕ} {n ops : ℕ} {s : Scheduler} {log : List ℕ} (inv : Inv first n ops s log)
    (t : ℕ) where
  open inv use {inside, bounded, kept, long, follows}

  abbrev after : Scheduler
  after = (round t s).1

  -- What was consumed before the round stays where it is.
  same_prefix : (k : ℕ) → k ≤ length s.schedule → take k after.schedule ≡ take k s.schedule
  same_prefix k h = elim (round-Grows t s) [
    | inl e ↦ ap (take k) e
    | inr g ↦ ap (take k) g.0 ∙ take-append k s.schedule (active s) h
  ]

  longer : length s.schedule ≤ length after.schedule
  longer = elim (round-Grows t s) [
    | inl e ↦ omega (arith, ap length e)
    | inr g ↦ omega (arith, ap length g.0, length-append s.schedule (active s))
  ]

  still_bounded : (length after.schedule ≤ length first) ⊎ (length after.schedule ≤ ops + n)
  still_bounded = elim (round-Grows t s) [
    | inl e ↦ rw e bounded
    | inr g ↦ inr (
        omega (
          arith,
          ap length g.0,
          length-append s.schedule (active s),
          length-active s,
          inv.cap,
          inv.threads,
        ))
  ]

  -- The consumed stretch grows by the entry at the old index.
  one_more :
      (x : ℕ)
      → after.index ≡ s.index + 1
      → get_elem? after.schedule s.index ≡ some x
      → take after.index after.schedule ≡ take s.index s.schedule ++ (x ∷ [])
  one_more x i e =
      let i' : after.index ≡ suc s.index = omega arith in
      ap (λ k. take k after.schedule) i'
      ∙ take-suc after.schedule s.index x e
      ∙ ap (λ l. l ++ (x ∷ [])) (same_prefix s.index inside)

  abbrev Goal : Round → Type 0
  Goal r =
      (after.index ≤ length after.schedule)
      × Follows s.threads_done (take after.index after.schedule) (note r t log)

  none_more :
      after.index ≡ s.index
      → (after.index ≤ length after.schedule)
        × Follows s.threads_done (take after.index after.schedule) log
  none_more i = (
    omega (arith, longer),
    subst (λ l. Follows s.threads_done l log)
        (sym (ap (λ k. take k after.schedule) i ∙ same_prefix s.index inside)) follows,
  )

  follow_on : (r : Round) → Taken t s r after → Goal r
  follow_on granted (i, e) = (
    omega (arith, get_elem?-lt after.schedule s.index t e),
    subst (λ l. Follows s.threads_done l (log ++ (t ∷ []))) (sym (one_more t i e))
        (Follows-ran t follows),
  )
  follow_on again (i, (x, e, d)) = (
    omega (arith, get_elem?-lt after.schedule s.index x e),
    subst (λ l. Follows s.threads_done l log) (sym (one_more x i e)) (Follows-skipped x d follows),
  )
  follow_on refused i = none_more i
  follow_on parked i = none_more i
  follow_on index_error i = none_more i

  round-Inv : Inv first n ops after (note (round t s).0 t log)
  round-Inv =
      let (same_done, same_ops, same_n) = round-same t s in
      let (in_range, f) = follow_on (round t s).0 (round-Taken t s) in
      record {
        cap = same_ops ∙ inv.cap;
        threads = same_n ∙ inv.threads;
        inside = in_range;
        bounded = still_bounded;
        kept = same_prefix (length first) long ∙ kept;
        long = omega (arith, longer);
        follows =
            subst (λ d. Follows d (take after.index after.schedule) (note (round t s).0 t log))
              (sym same_done) f;
      }

-- A timeout or a report changes the error alone.
time_out_error : (s : Scheduler) → (f : Option Failure) × ((time_out s).1 ≡ record s { error = f })
unfolding time_out
time_out_error s = elim (Option-cases (get_elem? s.schedule s.index)) [
  | inl e ↦ (s.error, rw (e, time_out) refl)
  | inr (x, e) ↦ elim (Bool-cases (contains x s.threads_done)) [
    | inl old ↦ (s.error, rw (e, old, time_out) refl)
    | inr new ↦ (some (deadlock x s.index (length s.schedule)), rw (e, new, time_out) refl)
  ]
]

report_error_error :
    (e : Failure) (s : Scheduler)
    → (f : Option Failure) × (report_error e s ≡ record s { error = f })
unfolding report_error
report_error_error e s = elim (Option-cases s.error) [
  | inl q ↦ (some e, ground arith)
  | inr (f, q) ↦ (some f, ground arith)
]

module _ {first : List ℕ} {n ops : ℕ} where
  go_on-Inv :
      (t : ℕ) (r r' : Round) (s s' : Scheduler) (log : List ℕ)
      (rest : Scheduler → Option (Round × Scheduler))
      → Inv first n ops s (note r t log)
      → (Inv first n ops s log → rest s ≡ some (r', s') → Inv first n ops s' (note r' t log))
      → go_on (r, s) rest ≡ some (r', s')
      → Inv first n ops s' (note r' t log)
  go_on-Inv t again r' s s' log rest inv more e = more inv e
  go_on-Inv t r r' s s' log rest inv more e =
      subst (λ o. Inv first n ops o.1 (note o.0 t log)) (some-injective _ _ e) inv

  turn-Inv :
      (fuel t : ℕ) (r : Round) (s s' : Scheduler) (log : List ℕ)
      → Inv first n ops s log
      → wait_for_turn fuel t s ≡ some (r, s')
      → Inv first n ops s' (note r t log)
  unfolding wait_for_turn
  turn-Inv zero t r s s' log inv e = cc
  turn-Inv (suc fuel) t r s s' log inv e =
      go_on-Inv t (round t s).0 r (round t s).1 s' log (wait_for_turn fuel t) (round-Inv inv t)
        (λ inv' e'. turn-Inv fuel t r (round t s).1 s' log inv' e') e

  error-Inv :
      {s : Scheduler} {log : List ℕ} (f : Option Failure)
      → Inv first n ops s log
      → Inv first n ops (record s { error = f }) log
  error-Inv f inv = record {
    cap = inv.cap;
    threads = inv.threads;
    inside = inv.inside;
    bounded = inv.bounded;
    kept = inv.kept;
    long = inv.long;
    follows = inv.follows;
  }

  Step-Inv :
      {s s' : Scheduler} {log log' : List ℕ}
      → Step s log s' log'
      → Inv first n ops s log
      → Inv first n ops s' log'
  unfolding time_out mark_done report_error
  Step-Inv (turn {s} {s'} {log} fuel t r e) inv = turn-Inv fuel t r s s' log inv e
  Step-Inv (timeout {s} {log}) inv =
      subst (λ u. Inv first n ops u log) (sym (time_out_error s).1) (error-Inv _ inv)
  Step-Inv (done {s} t) inv = record {
    cap = inv.cap;
    threads = inv.threads;
    inside = inv.inside;
    bounded = inv.bounded;
    kept = inv.kept;
    long = inv.long;
    follows = Follows-mono (λ x h. ground (arith, contains-add t x s.threads_done)) inv.follows;
  }
  Step-Inv (fail {s} {log} e) inv =
      subst (λ u. Inv first n ops u log) (sym (report_error_error e s).1) (error-Inv _ inv)

Inv-init : (first : List ℕ) (n ops : ℕ) → Inv first n (op_cap first ops) (init first n ops) []
unfolding init
Inv-init first n ops = record {
  cap = refl;
  threads = refl;
  inside = omega arith;
  bounded = inl (omega arith);
  kept = take-length first;
  long = omega arith;
  follows = start;
}

pub Run-Inv :
    {first : List ℕ} {n ops : ℕ} {s : Scheduler} {log : List ℕ}
    → Run first n ops s log
    → Inv first n (op_cap first ops) s log
Run-Inv {first} {n} {ops} here = Inv-init first n ops
Run-Inv (next r st) = Step-Inv st (Run-Inv r)
