-- ===== src/Opcode/Loop.antt =====
-- frontrun/bytecode.py, OpcodeScheduler.wait_for_turn: where the loop comes to.
use mathlib.Core.Path.{subst}
use frontrun.Prelude.{
  ℕ, zero, suc, ◌+◌, ◌-◌, ◌≤◌, ◌<◌, ◌≡◌, refl, ap, sym, ◌∙◌, ◌≢◌, ◌⊎◌, Bool, true, Option, some,
  List, [], ◌∷◌, ◌++◌, nat_eq, length, get_elem?, get_elem?-append_right, get_elem?-eq-none,
  length-append, keep, All, arith, Bool-cases, Option-cases, inl, inr,
}
use frontrun.Opcode.{
  Scheduler, active, is_active, range_from, extend_by, extend_schedule, Round, granted, refused,
  again, parked, index_error, decide_turn, ensure, after_ensure, go_on, round, wait_for_turn,
}

All-get_elem? {ℓ κ} :
    {A : Type ℓ} (P : A → Type κ) (xs : List A) (i : ℕ) (a : A)
    → All P xs
    → get_elem? xs i ≡ some a
    → P a
All-get_elem? P [] i a h e = cc
All-get_elem? P (x ∷ xs) zero a h e = let q : x ≡ a = cc in subst P q h.0
All-get_elem? P (x ∷ xs) (suc i) a h e = All-get_elem? P xs i a h.1 e

abbrev AllActive : Scheduler → List ℕ → Type 0
AllActive s = All (λ t. is_active s.threads_done t ≡ true)

keep-All {ℓ} : {A : Type ℓ} (p : A → Bool) (xs : List A) → All (λ a. p a ≡ true) (keep p xs)
keep-All p [] = tt
keep-All p (x ∷ xs) = elim (Bool-cases (p x)) [
  | inl e ↦ rw (e, keep) (e, keep-All p xs)
  | inr e ↦ rw (e, keep) (keep-All p xs)
]

pub active-AllActive : (s : Scheduler) → AllActive s (active s)
unfolding active
active-AllActive s = keep-All (is_active s.threads_done) (range_from 0 s.num_threads)

-- Right after an extension the round does not go on: the entry met is an active thread.
after_extend :
    (t : ℕ) (s : Scheduler) (l : List ℕ)
    → AllActive s l
    → length s.schedule ≤ s.index
    → (after_ensure t (extend_by s l)).0 ≢ again
after_extend t s [] fit past h = cc
after_extend t s (y ∷ ys) fit past h =
    elim (Option-cases (get_elem? (s.schedule ++ (y ∷ ys)) s.index)) [
      | inl e ↦ ground arith
      | inr (x, e) ↦
          let there = sym (get_elem?-append_right s.schedule (y ∷ ys) s.index past) ∙ e in
          let fresh =
            All-get_elem? (λ t'. is_active s.threads_done t' ≡ true) (y ∷ ys)
              (s.index - length s.schedule) x fit there in
          ground arith
    ]

-- Each round that goes on takes one entry of the schedule, and none follows an extension.
round_again :
    (t : ℕ) (s : Scheduler)
    → (round t s).0 ≡ again
    → (s.index < length s.schedule)
      × ((round t s).1.index ≡ s.index + 1)
      × ((round t s).1.schedule ≡ s.schedule)
unfolding round ensure extend_schedule
round_again t s h = ground (arith, after_extend t s (active s) (active-AllActive s))

-- An entry of the schedule is there to look at.
decide_turn-in_range :
    (t : ℕ) (s : Scheduler)
    → s.index < length s.schedule
    → (decide_turn t s (get_elem? s.schedule s.index)).0 ≢ index_error
decide_turn-in_range t s inside h = elim (Option-cases (get_elem? s.schedule s.index)) [
  | inl e ↦ omega (arith, get_elem?-eq-none s.schedule s.index e)
  | inr (x, e) ↦ ground arith
]

extended-in_range :
    (t : ℕ) (s : Scheduler) (l : List ℕ)
    → s.index ≤ length s.schedule
    → (after_ensure t (extend_by s l)).0 ≢ index_error
extended-in_range t s [] inside h = cc
extended-in_range t s (y ∷ ys) inside h =
    decide_turn-in_range t (record s { schedule = s.schedule ++ (y ∷ ys) })
      (omega (arith, length-append s.schedule (y ∷ ys))) h

round-in_range : (t : ℕ) (s : Scheduler) → s.index ≤ length s.schedule → (round t s).0 ≢ index_error
unfolding round ensure extend_schedule
round-in_range t s inside h =
    ground (arith, extended-in_range t s (active s) inside, decide_turn-in_range t s)

-- A call that has come to its return or its wait.
abbrev pub Ends : Option (Round × Scheduler) → Type 0
Ends o =
    (r : Round) × (s : Scheduler) × (o ≡ some (r, s))
    × ((r ≡ granted) ⊎ (r ≡ refused) ⊎ (r ≡ parked))

go_on-Ends :
    (r : Round) (s : Scheduler) (next : Scheduler → Option (Round × Scheduler))
    → r ≢ index_error
    → (r ≡ again → Ends (next s))
    → Ends (go_on (r, s) next)
go_on-Ends again s next fine rest = rest refl
go_on-Ends granted s next fine rest = (granted, s, refl, inl refl)
go_on-Ends refused s next fine rest = (refused, s, refl, inr (inl refl))
go_on-Ends parked s next fine rest = (parked, s, refl, inr (inr refl))
go_on-Ends index_error s next fine rest = absurd (fine refl)

loop-Ends :
    (fuel t : ℕ) (s : Scheduler)
    → s.index ≤ length s.schedule
    → length s.schedule + 1 ≤ fuel + s.index
    → 0 < fuel
    → Ends (wait_for_turn fuel t s)
unfolding wait_for_turn
loop-Ends zero t s inside enough some_fuel = absurd (omega arith)
loop-Ends (suc fuel) t s inside enough some_fuel =
    go_on-Ends (round t s).0 (round t s).1 (wait_for_turn fuel t) (round-in_range t s inside)
      λ more.
        let (left, next, same) = round_again t s more in
        loop-Ends fuel t (round t s).1 (omega (arith, ap length same))
          (omega (arith, ap length same)) (omega arith)

-- Where the index is not past the end of the schedule, a call returns True, returns False or comes
-- to its wait, and makes no access out of range: as many rounds as the schedule has entries, and one
-- more, are enough.
pub wait_for_turn-returns :
    (t : ℕ) (s : Scheduler)
    → s.index ≤ length s.schedule
    → (r : Round) × (s' : Scheduler) × (wait_for_turn (suc (length s.schedule)) t s ≡ some (r, s'))
      × ((r ≡ granted) ⊎ (r ≡ refused) ⊎ (r ≡ parked))
wait_for_turn-returns t s inside =
    loop-Ends (suc (length s.schedule)) t s inside (omega arith) (omega arith)
