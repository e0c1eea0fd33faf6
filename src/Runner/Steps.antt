-- ===== src/Runner/Steps.antt =====
-- frontrun/bytecode.py, BytecodeShuffler.run: the steps of a run, and the account.
use frontrun.Prelude.{
  ℕ, ◌≡◌, ◌⊎◌, refl, sym, ap, ◌∙◌, Bool, true, false, ◌&&◌, ◌||◌, not, none, some, List, [], ◌∷◌,
  ◌++◌, nat_eq, ◌==◌, if◌then◌else◌, arith, put, lookup, contains, contains-add, add, is_some,
  Bool-cases, Option-cases, inl, inr,
}
use mathlib.Core.List.{append-nil}
use mathlib.Core.Path.{subst}
use frontrun.Opcode.{Scheduler, Round, reported, wait_for_turn, time_out, mark_done, report_error}
use frontrun.Runner.{
  Exit, returned, aborted, interrupted, raised, Local, bare, Runner, handle_exit, enter, clean_up,
  leave, stop_alive,
}
use frontrun.Runner.Runs.{Phase, fresh, inside, gone, set_phase}
use frontrun.Runner.Account.{
  raised_of, is_gone, local_of, IsAccount, raised_of-snoc, put-new, lookup-append-other, IsKept,
  wait_for_turn-IsKept,
}

report_error-is_some : (e : ℕ) (s : Scheduler) → is_some (report_error (reported e) s).error ≡ true
unfolding report_error
report_error-is_some e s = elim (Option-cases s.error) [
  | inl h ↦ rw h refl
  | inr (f, h) ↦ rw h refl
]

report_error-done :
    (e : ℕ) (s : Scheduler) → (report_error (reported e) s).threads_done ≡ s.threads_done
unfolding report_error
report_error-done e s = ground arith

pub time_out-IsKept :
    (s : Scheduler)
    → ((time_out s).1.threads_done ≡ s.threads_done)
      × (is_some s.error ≡ true → is_some (time_out s).1.error ≡ true)
unfolding time_out
time_out-IsKept s = ground arith

module _ (settrace detect_io : Bool) where
  picked :
      (b : Bool) (l l' : Local) (p p' : Phase)
      → l ≡ local_of settrace detect_io p
      → l' ≡ local_of settrace detect_io p'
      → (if b then l else l') ≡ local_of settrace detect_io (if b then p else p')
  picked true l l' p p' h k = h
  picked false l l' p p' h k = k

  module _ (phases : ℕ → Phase) (log : List (ℕ × Exit)) (r : Runner)
      (h : IsAccount settrace detect_io phases log r) where
    pub scheduler-IsAccount :
        (s : Scheduler)
        → s.threads_done ≡ r.scheduler.threads_done
        → (is_some r.scheduler.error ≡ true → is_some s.error ≡ true)
        → IsAccount settrace detect_io phases log (record r { scheduler = s })
    scheduler-IsAccount s d e = record {
      errors = h.errors;
      logged = h.logged;
      locals = h.locals;
      done = λ t. ap (contains t) d ∙ h.done t;
      told = elim h.told [ inl n ↦ inl n | inr k ↦ inr (e k) ];
    }

    pub turn-IsAccount :
        (fuel t : ℕ) (answer : Round) (s : Scheduler)
        → wait_for_turn fuel t (r.scheduler) ≡ some (answer, s)
        → IsAccount settrace detect_io phases log (record r { scheduler = s })
    turn-IsAccount fuel t answer s e = scheduler-IsAccount s kept.0 (λ h. ap is_some kept.1 ∙ h)
      where
        kept : (s.threads_done ≡ r.scheduler.threads_done) × (s.error ≡ r.scheduler.error)
        kept = subst (IsKept (r.scheduler)) e (wait_for_turn-IsKept fuel t (r.scheduler))

    module _ (t : ℕ) where
      entered :
          (l : Local)
          → l ≡ bare
          → record {
            managed = true;
            reporting = l.reporting || detect_io;
            traced = l.traced || settrace;
          }
            ≡ local_of settrace detect_io inside
      entered l e =
          ap
            (λ (l : Local). record {
              managed = true;
              reporting = l.reporting || detect_io;
              traced = l.traced || settrace;
            })
            e

      not_gone :
          (to : Phase) (u : ℕ)
          → is_gone (phases t) ≡ is_gone to
          → is_gone (phases u) ≡ is_gone (set_phase t to phases u)
      not_gone to u e = ground (arith, e)

      pub enter-IsAccount :
          phases t ≡ fresh
          → IsAccount settrace detect_io
              (set_phase t inside phases)
              log
              (enter settrace detect_io t r)
      unfolding enter
      enter-IsAccount p = record {
        errors = h.errors;
        logged = λ u g. h.logged u (not_gone inside u (ap is_gone p) ∙ g);
        done = λ u. h.done u ∙ not_gone inside u (ap is_gone p);
        locals = λ u.
            picked (t == u) _ _ inside (phases u)
              (entered (r.locals t) (h.locals t ∙ ap (local_of settrace detect_io) p)) (h.locals u);
        told = h.told;
      }

      cleaned :
          (a b : Bool)
          → record { managed = false; reporting = b && not b; traced = a && not a } ≡ bare
      cleaned true true = refl
      cleaned true false = refl
      cleaned false true = refl
      cleaned false false = refl

      left_bare :
          (l : Local)
          → l ≡ local_of settrace detect_io inside
          → record {
            managed = false;
            reporting = l.reporting && not detect_io;
            traced = l.traced && not settrace;
          }
            ≡ bare
      left_bare l e =
          ap
            (λ (l : Local). record {
              managed = false;
              reporting = l.reporting && not detect_io;
              traced = l.traced && not settrace;
            })
            e
          ∙ cleaned settrace detect_io

      -- What the handlers of exceptions leave.
      record IsHandled (exit : Exit) (r1 : Runner) : Type 0 where
        errors : r1.errors ≡ raised_of (log ++ ((t, exit) ∷ []))
        same_done : r1.scheduler.threads_done ≡ r.scheduler.threads_done
        same_locals : r1.locals ≡ r.locals
        told : (raised_of (log ++ ((t, exit) ∷ [])) ≡ []) ⊎ (is_some r1.scheduler.error ≡ true)

      plain-IsHandled : (exit : Exit) → raised_of ((t, exit) ∷ []) ≡ [] → IsHandled exit r
      plain-IsHandled exit n = record {
        errors = h.errors ∙ sym same;
        same_done = refl;
        same_locals = refl;
        told = elim h.told [ inl k ↦ inl (same ∙ k) | inr k ↦ inr k ];
      }
        where
          same : raised_of (log ++ ((t, exit) ∷ [])) ≡ raised_of log
          same =
              raised_of-snoc log t exit
              ∙ ap (λ l. raised_of log ++ l) n
              ∙ append-nil (raised_of log)

      handle_exit-IsHandled :
          (exit : Exit) → phases t ≡ inside → IsHandled exit (handle_exit t exit r)
      unfolding handle_exit
      handle_exit-IsHandled returned p = plain-IsHandled returned refl
      handle_exit-IsHandled aborted p = plain-IsHandled aborted refl
      handle_exit-IsHandled interrupted p = plain-IsHandled interrupted refl
      handle_exit-IsHandled (raised e) p = record {
        errors =
            ap (put t e) h.errors
            ∙ put-new t e (raised_of log) (h.logged t (ap is_gone p))
            ∙ sym (raised_of-snoc log t (raised e));
        same_done = report_error-done e (r.scheduler);
        same_locals = refl;
        told = inr (report_error-is_some e (r.scheduler));
      }

      still_unlogged :
          (exit : Exit) (u : ℕ)
          → phases t ≡ inside
          → is_gone (set_phase t gone phases u) ≡ false
          → lookup u (raised_of (log ++ ((t, exit) ∷ []))) ≡ none
      still_unlogged exit u p g = ap (lookup u) (raised_of-snoc log t exit) ∙ by exit
        where
          apart : (t == u) ≡ false
          apart = elim (Bool-cases (t == u)) [
            | inl same ↦ ground (arith, g, same)
            | inr other ↦ other
          ]

          unlogged : lookup u (raised_of log) ≡ none
          unlogged = h.logged u (ground (arith, g, apart))

          by : (exit : Exit) → lookup u (raised_of log ++ raised_of ((t, exit) ∷ [])) ≡ none
          by returned = ap (lookup u) (append-nil (raised_of log)) ∙ unlogged
          by aborted = ap (lookup u) (append-nil (raised_of log)) ∙ unlogged
          by interrupted = ap (lookup u) (append-nil (raised_of log)) ∙ unlogged
          by (raised e) = lookup-append-other u t e (raised_of log) apart unlogged

      pub leave-IsAccount :
          (exit : Exit)
          → phases t ≡ inside
          → IsAccount settrace detect_io
              (set_phase t gone phases)
              (log ++ ((t, exit) ∷ []))
              (leave settrace detect_io t exit r)
      unfolding leave clean_up mark_done
      leave-IsAccount exit p = record {
        errors = k.errors;
        logged = λ u. still_unlogged exit u p;
        done = λ u.
            ap (λ l. contains u (add t l)) k.same_done
            ∙ contains-add t u (r.scheduler.threads_done)
            ∙ ground (arith, h.done u);
        locals = λ u.
            picked (t == u) _ _ gone (phases u)
              (left_bare ((handle_exit t exit r).locals t)
                (ap (λ f. f t) k.same_locals ∙ h.locals t ∙ ap (local_of settrace detect_io) p))
              (ap (λ f. f u) k.same_locals ∙ h.locals u);
        told = k.told;
      }
        where
          k : IsHandled exit (handle_exit t exit r)
          k = handle_exit-IsHandled exit p

      pub stop-IsAccount :
          (timeout_error : ℕ) (alive : List ℕ)
          → IsAccount settrace detect_io phases log (stop_alive timeout_error alive r)
      unfolding stop_alive
      stop-IsAccount timeout_error [] = h
      stop-IsAccount timeout_error (u ∷ us) =
          scheduler-IsAccount (record (r.scheduler) { error = some (reported timeout_error) }) refl
            (λ _. refl)
