-- ===== src/Opcode/Effect.antt =====
-- What one round of the loop of `wait_for_turn` changes.
use frontrun.Prelude.{
  ℕ, zero, suc, ◌+◌, ◌≤◌, ◌<◌, ◌≡◌, refl, ap, ◌∙◌, true, ◌||◌, Option, none, some, List, [], ◌∷◌,
  ◌++◌, ◌⊎◌, nat_eq, nat_beq_iff, ◌==◌, leb, length, get_elem?, length-keep, contains, is_some,
  arith, Bool-cases, inl, inr,
}
use frontrun.Opcode.{
  Scheduler, active, is_active, range_from, extend_by, extend_schedule, Round, granted, again,
  ensure, decide_turn, after_ensure, round,
}

-- What a round leaves alone, where the schedule grows, and which entry it takes.
abbrev pub Taken : ℕ → Scheduler → Round → Scheduler → Type 0
Taken t s granted s' = (s'.index ≡ s.index + 1) × (get_elem? s'.schedule s.index ≡ some t)
Taken t s again s' =
    (s'.index ≡ s.index + 1)
    × ((x : ℕ) × (get_elem? s'.schedule s.index ≡ some x) × (contains x s.threads_done ≡ true))
Taken t s _ s' = s'.index ≡ s.index

decide_turn-Taken :
    (t : ℕ) (s : Scheduler) (o : Option ℕ)
    → get_elem? s.schedule s.index ≡ o
    → Taken t s (decide_turn t s o).0 (decide_turn t s o).1
decide_turn-Taken t s none e = refl
decide_turn-Taken t s (some x) e = elim (Bool-cases (contains x s.threads_done)) [
  | inl old ↦ rw (old, decide_turn) (refl, (x, e, old))
  | inr new ↦ elim (Bool-cases (x == t)) [
    | inl mine ↦ rw (new, mine, decide_turn) (refl, e ∙ ap some ((nat_beq_iff x t).0 mine))
    | inr other ↦ rw (new, other, decide_turn) refl
  ]
]

extend_by-Taken :
    (t : ℕ) (s : Scheduler) (l : List ℕ)
    → Taken t s (after_ensure t (extend_by s l)).0 (after_ensure t (extend_by s l)).1
extend_by-Taken t s [] = refl
extend_by-Taken t s (x ∷ l) =
    decide_turn-Taken t (record s { schedule = s.schedule ++ (x ∷ l) }) _ refl

pub round-Taken : (t : ℕ) (s : Scheduler) → Taken t s (round t s).0 (round t s).1
unfolding round ensure extend_schedule
round-Taken t s = elim (Bool-cases (s.finished || is_some s.error)) [
  | inl stopped ↦ rw (stopped, round) refl
  | inr going ↦ elim (Bool-cases (leb (length s.schedule) s.index)) [
    | inl past ↦ elim (Bool-cases (leb s.max_ops s.index)) [
      | inl full ↦ rw (going, past, full, round, ensure, extend_schedule) refl
      | inr room ↦
          rw (going, past, room, round, ensure, extend_schedule) (extend_by-Taken t s (active s))
    ]
    | inr within ↦ rw (going, within, round, ensure) (decide_turn-Taken t s _ refl)
  ]
]

-- The schedule stays, or grows by one round of the active threads, below the cap on operations.
abbrev pub Grows : Scheduler → Scheduler → Type 0
Grows s s' =
    (s'.schedule ≡ s.schedule)
    ⊎ (s'.schedule ≡ s.schedule ++ active s) × (length s.schedule ≤ s.index) × (s.index < s.max_ops)

extend_by-schedule :
    (t : ℕ) (s : Scheduler) (l : List ℕ)
    → ((after_ensure t (extend_by s l)).1.schedule ≡ s.schedule)
      ⊎ ((after_ensure t (extend_by s l)).1.schedule ≡ s.schedule ++ l)
extend_by-schedule t s [] = inl refl
extend_by-schedule t s (x ∷ l) = ground arith

pub round-Grows : (t : ℕ) (s : Scheduler) → Grows s (round t s).1
unfolding round ensure extend_schedule
round-Grows t s = ground (arith, extend_by-schedule t s (active s))

pub round-same :
    (t : ℕ) (s : Scheduler)
    → ((round t s).1.threads_done ≡ s.threads_done)
      × ((round t s).1.max_ops ≡ s.max_ops)
      × ((round t s).1.num_threads ≡ s.num_threads)
unfolding round ensure extend_schedule
round-same t s = ground arith

length-range_from : (i n : ℕ) → length (range_from i n) ≡ n
length-range_from i zero = refl
length-range_from i (suc n) = ap suc (length-range_from (suc i) n)

pub length-active : (s : Scheduler) → length (active s) ≤ s.num_threads
unfolding active
length-active s = omega (
  arith,
  length-keep (is_active s.threads_done) (range_from 0 s.num_threads),
  length-range_from 0 s.num_threads,
)
