-- ===== src/Opcode/Progress.antt =====
-- frontrun/bytecode.py, OpcodeScheduler: the thread that a waiting call waits for.
use mathlib.Core.Path.{subst}
use mathlib.Core.Option.{some-injective}
use frontrun.Prelude.{
  ℕ, zero, suc, ◌≡◌, refl, ap, sym, ◌∙◌, ◌≢◌, false, ◌||◌, Option, none, some, List, [], ◌∷◌, ◌++◌,
  nat_eq, ◌==◌, leb, length, get_elem?, contains, is_some, arith, Bool-cases, inl, inr,
  get_elem?-lt,
}
use frontrun.Opcode.{
  advance, Scheduler, active, extend_by, extend_schedule, Round, granted, refused, again, parked,
  index_error, ensure, decide_turn, after_ensure, go_on, round, wait_for_turn,
}

-- The thread that a parked call waits for: it is not done, it is another thread, and it would be
-- granted its turn.
abbrev Next : ℕ → Scheduler → Type 0
Next t s =
    (u : ℕ) × (get_elem? s.schedule s.index ≡ some u) × (u ≢ t) × (round u s ≡ (granted, advance s))

decide_turn-parked :
    (t : ℕ) (s : Scheduler) (o : Option ℕ)
    → (s.finished || is_some s.error) ≡ false
    → get_elem? s.schedule s.index ≡ o
    → (decide_turn t s o).0 ≡ parked
    → Next t (decide_turn t s o).1
unfolding round ensure
decide_turn-parked t s none going e h = cc
decide_turn-parked t s (some x) going e h = elim (Bool-cases (contains x s.threads_done)) [
  | inl old ↦ absurd (ground arith)
  | inr new ↦ elim (Bool-cases (x == t)) [
    | inl mine ↦ absurd (ground arith)
    | inr other ↦
        rw (new, other, decide_turn)
          (x, e, ground arith, ground (arith, get_elem?-lt s.schedule s.index x e))
  ]
]

extend_by-parked :
    (t : ℕ) (s : Scheduler) (l : List ℕ)
    → (s.finished || is_some s.error) ≡ false
    → (after_ensure t (extend_by s l)).0 ≡ parked
    → Next t (after_ensure t (extend_by s l)).1
extend_by-parked t s [] going h = cc
extend_by-parked t s (x ∷ l) going h =
    decide_turn-parked t (record s { schedule = s.schedule ++ (x ∷ l) }) _ going refl h

round-parked : (t : ℕ) (s : Scheduler) → (round t s).0 ≡ parked → Next t (round t s).1
unfolding round ensure extend_schedule
round-parked t s h = elim (Bool-cases (s.finished || is_some s.error)) [
  | inl stopped ↦ absurd (ground arith)
  | inr going ↦ elim (Bool-cases (leb (length s.schedule) s.index)) [
    | inl past ↦ elim (Bool-cases (leb s.max_ops s.index)) [
      | inl full ↦ absurd (ground arith)
      | inr room ↦
          parked_by (after_ensure t (extend_by s (active s)))
            (rw (going, past, room, round, ensure, extend_schedule))
            (extend_by-parked t s (active s) going)
    ]
    | inr within ↦
        parked_by (decide_turn t s (get_elem? s.schedule s.index))
          (rw (going, within, round, ensure)) (decide_turn-parked t s _ going refl)
  ]
]
  where
    parked_by :
        (o : Round × Scheduler) → round t s ≡ o → (o.0 ≡ parked → Next t o.1) → Next t (round t s).1
    parked_by o e f = subst (λ q. Next t q.1) (sym e) (f (ap (λ q. q.0) (sym e) ∙ h))

go_on-parked :
    (t : ℕ) (r : Round) (s s' : Scheduler) (rest : Scheduler → Option (Round × Scheduler))
    → (r ≡ parked → Next t s)
    → (rest s ≡ some (parked, s') → Next t s')
    → go_on (r, s) rest ≡ some (parked, s')
    → Next t s'
go_on-parked t again s s' rest now later e = later e
go_on-parked t parked s s' rest now later e =
    subst (λ q. Next t q.1) (some-injective _ _ e) (now refl)
go_on-parked t granted s s' rest now later e = absurd (cc (some-injective _ _ e))
go_on-parked t refused s s' rest now later e = absurd (cc (some-injective _ _ e))
go_on-parked t index_error s s' rest now later e = absurd (cc (some-injective _ _ e))

-- Where a call comes to the wait, the schedule's next entry names another thread, and that thread
-- would be granted its turn at once.
pub wait_for_turn-parked :
    (fuel t : ℕ) (s s' : Scheduler)
    → wait_for_turn fuel t s ≡ some (parked, s')
    → (u : ℕ) × (get_elem? s'.schedule s'.index ≡ some u)
      × (u ≢ t)
      × (round u s' ≡ (granted, advance s'))
unfolding wait_for_turn
wait_for_turn-parked zero t s s' e = cc
wait_for_turn-parked (suc fuel) t s s' e =
    go_on-parked t (round t s).0 (round t s).1 s' (wait_for_turn fuel t) (round-parked t s)
      (wait_for_turn-parked fuel t (round t s).1 s') e
