-- ===== src/Runner/Account.antt =====
-- frontrun/bytecode.py, BytecodeShuffler.run: the errors, the threads that are done and what is left set.
use frontrun.Prelude.{
  ℕ, zero, suc, ◌≡◌, ◌⊎◌, refl, ap, ◌∙◌, Bool, true, false, Option, none, some, List, [], ◌∷◌, ◌++◌,
  nat_eq, ◌==◌, arith, put, lookup, contains, is_some,
}
use frontrun.Opcode.{
  Scheduler, Round, granted, refused, again, parked, index_error, round, ensure, extend_schedule,
  go_on, wait_for_turn,
}
use frontrun.Opcode.Effect.{round-same}
use frontrun.Runner.{Exit, returned, aborted, interrupted, raised, Local, bare, Runner}
use frontrun.Runner.Runs.{Phase, fresh, inside, gone}

-- The exceptions that went through a thread's function, in the order of the threads' ends.
abbrev pub raised_of : List (ℕ × Exit) → List (ℕ × ℕ)
raised_of [] = []
raised_of ((t, raised e) ∷ log) = (t, e) ∷ raised_of log
raised_of ((t, returned) ∷ log) = raised_of log
raised_of ((t, aborted) ∷ log) = raised_of log
raised_of ((t, interrupted) ∷ log) = raised_of log

abbrev pub first_raised : List (ℕ × ℕ) → Option ℕ
first_raised [] = none
first_raised (x ∷ xs) = some x.1

abbrev pub is_gone : Phase → Bool
is_gone gone = true
is_gone inside = false
is_gone fresh = false

module _ (settrace detect_io : Bool) where
  -- What is set for a thread in each of its phases.
  abbrev pub local_of : Phase → Local
  local_of inside = record { managed = true; reporting = detect_io; traced = settrace }
  local_of fresh = bare
  local_of gone = bare

  pub record IsAccount (phases : ℕ → Phase) (log : List (ℕ × Exit)) (r : Runner) : Type 0 where
    pub errors : r.errors ≡ raised_of log
    pub logged : (t : ℕ) → is_gone (phases t) ≡ false → lookup t (raised_of log) ≡ none
    pub done : (t : ℕ) → contains t r.scheduler.threads_done ≡ is_gone (phases t)
    pub locals : (t : ℕ) → r.locals t ≡ local_of (phases t)
    pub told : (raised_of log ≡ []) ⊎ (is_some r.scheduler.error ≡ true)

pub raised_of-snoc :
    (log : List (ℕ × Exit)) (t : ℕ) (exit : Exit)
    → raised_of (log ++ ((t, exit) ∷ [])) ≡ raised_of log ++ raised_of ((t, exit) ∷ [])
raised_of-snoc [] t exit = refl
raised_of-snoc ((u, raised e) ∷ log) t exit = ap ((u, e) ∷◌) (raised_of-snoc log t exit)
raised_of-snoc ((u, returned) ∷ log) t exit = raised_of-snoc log t exit
raised_of-snoc ((u, aborted) ∷ log) t exit = raised_of-snoc log t exit
raised_of-snoc ((u, interrupted) ∷ log) t exit = raised_of-snoc log t exit

pub put-new : (t e : ℕ) (m : List (ℕ × ℕ)) → lookup t m ≡ none → put t e m ≡ m ++ ((t, e) ∷ [])
unfolding put lookup
put-new t e [] h = refl
put-new t e ((u, d) ∷ m) h = ground (arith, h, put-new t e m)

pub lookup-append-other :
    (t u e : ℕ) (m : List (ℕ × ℕ))
    → (u == t) ≡ false
    → lookup t m ≡ none
    → lookup t (m ++ ((u, e) ∷ [])) ≡ none
unfolding lookup
lookup-append-other t u e [] h k = ground (arith, h)
lookup-append-other t u e ((v, d) ∷ m) h k = ground (arith, h, k, lookup-append-other t u e m h)

-- `wait_for_turn` changes neither the done threads nor the error.
round-error : (t : ℕ) (s : Scheduler) → (round t s).1.error ≡ s.error
unfolding round ensure extend_schedule
round-error t s = ground arith

abbrev pub IsKept : Scheduler → Option (Round × Scheduler) → Type 0
IsKept s none = Unit
IsKept s (some (r, s')) = (s'.threads_done ≡ s.threads_done) × (s'.error ≡ s.error)

pub wait_for_turn-IsKept : (fuel t : ℕ) (s : Scheduler) → IsKept s (wait_for_turn fuel t s)
unfolding wait_for_turn
wait_for_turn-IsKept zero t s = tt
wait_for_turn-IsKept (suc fuel) t s =
    by (round t s).0 (round t s).1 (round-same t s).0 (round-error t s)
      (wait_for_turn-IsKept fuel t (round t s).1)
  where
    after :
        (s1 : Scheduler) (o : Option (Round × Scheduler))
        → s1.threads_done ≡ s.threads_done
        → s1.error ≡ s.error
        → IsKept s1 o
        → IsKept s o
    after s1 none d e h = tt
    after s1 (some (r, s2)) d e h = (h.0 ∙ d, h.1 ∙ e)

    by :
        (r : Round) (s1 : Scheduler)
        → s1.threads_done ≡ s.threads_done
        → s1.error ≡ s.error
        → IsKept s1 (wait_for_turn fuel t s1)
        → IsKept s (go_on (r, s1) (wait_for_turn fuel t))
    by again s1 d e h = after s1 (wait_for_turn fuel t s1) d e h
    by granted s1 d e h = (d, e)
    by refused s1 d e h = (d, e)
    by parked s1 d e h = (d, e)
    by index_error s1 d e h = (d, e)
