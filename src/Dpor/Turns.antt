-- ===== src/Dpor/Turns.antt =====
-- frontrun/dpor.py, DporScheduler: the granted turns and the engine's decisions.
use frontrun.Prelude.{
  by_test, ℕ, ◌≡◌, refl, sym, ap, ◌∙◌, Bool, true, ◌||◌, Option, none, some, List, [], ◌∷◌, ◌++◌,
  String, string_eq, nat_eq, nat_beq_iff, arith, is_some, contains, contains-add, add,
}
use mathlib.Core.List.{append-nil}
use mathlib.Core.Path.{subst}
use frontrun.PreloadBridge.{Bridge}
use frontrun.Opcode.Follow.{Follows, start, Follows-skipped, Follows-mono}
use frontrun.Dpor.{
  finish, Engine, Dpor, Place, Answer, tell, init, look, time_out, mark_done, report_error,
  schedule_next, process, hand_over, after_process, is_thread, in_done, blank,
}
use frontrun.Dpor.Log.{to_list, decisions, InTurn}
use frontrun.Dpor.Beside.{
  told, io-IsBeside, error-IsBeside, setup-IsBeside, teardown-IsBeside, sync-IsBeside,
  collect-IsBeside,
}
use frontrun.Dpor.Runs.{grant, Run}
use frontrun.Dpor.Settle.{
  Inv, Settled, next-Inv, hand_over-IsAdopting, after_done-IsAdopting, start_with-IsAdopting,
  process-Settled, current_is, Inv-IsBeside,
}

look-Inv :
    (engine : Engine) (t : ℕ) (place : Option Place) (s : Dpor) {granted : List ℕ}
    → Inv s granted
    → Inv (look engine t place s).1 (granted ++ grant t (look engine t place s).0)
unfolding look
look-Inv engine t place s {granted} v =
    by_test P (s.finished || is_some s.error) (λ e. unchanged)
      (λ e.
        by_test P (is_thread t s.current_thread)
          (λ now.
            by (process t place s)
              (λ s'. process-Settled t place s s' v (current_is t s.current_thread now)))
          (λ other. unchanged))
  where
    P : Answer × Dpor → Type 0
    P x = Inv x.1 (granted ++ grant t x.0)

    unchanged : Inv s (granted ++ [])
    unchanged = subst (Inv s) (sym (append-nil granted)) v

    by :
        (o : Option Dpor)
        → ((s' : Dpor) → o ≡ some s' → Settled s' (granted ++ (t ∷ [])))
        → P (after_process engine s o)
    by none h = unchanged
    by (some s') h = next-Inv engine s' hand_over-IsAdopting (h s' refl)

settle :
    {t : ℕ} {s : Dpor} {granted : List ℕ}
    → Inv s granted
    → s.current_thread ≡ some t
    → contains t s.threads_done ≡ true
    → Settled s granted
settle {t} {s} {granted} v now gone = record {
  follows =
      subst (λ l. Follows s.threads_done l granted)
        (sym (v.decided ∙ ap (λ c. v.settled ++ to_list c) now)) (Follows-skipped t gone v.follows);
  in_turn = v.in_turn;
}

time_out-Inv :
    (engine : Engine) (t : ℕ) (s : Dpor) {granted : List ℕ}
    → Inv s granted
    → Inv (time_out engine t s).1 granted
unfolding time_out
time_out-Inv engine t s {granted} v =
    by_test (λ (x : Answer × Dpor). Inv x.1 granted) (in_done s.threads_done s.current_thread)
      (λ e. gone s.current_thread refl e)
      (λ e.
        Inv-IsBeside {s = s}
          (record {
            calls = [];
            aside = tt;
            log = sym (append-nil s.log);
            current = refl;
            done = refl;
          })
          v)
  where
    gone :
        (c : Option ℕ)
        → s.current_thread ≡ c
        → in_done s.threads_done c ≡ true
        → Inv (hand_over (schedule_next engine s)) granted
    gone none now e = cc e
    gone (some u) now e = next-Inv engine s hand_over-IsAdopting (settle v now e)

mark_done-Inv :
    (engine : Engine) (t : ℕ) (s : Dpor) {granted : List ℕ}
    → Inv s granted
    → Inv (mark_done engine t s) granted
unfolding mark_done
mark_done-Inv engine t s {granted} v =
    by_test (λ x. Inv x granted) (is_thread t s.current_thread)
      (λ e. next-Inv engine _ after_done-IsAdopting (
        settle ended (current_is t s.current_thread e)
          (ground (arith, contains-add t t s.threads_done, (nat_beq_iff t t).1 refl))))
      (λ e. ended)
  where
    more : Dpor
    more = record s { threads_done = add t s.threads_done }

    grown : Inv more granted
    grown = record {
      settled = v.settled;
      decided = v.decided;
      follows = Follows-mono (λ x e. ground (arith, contains-add t x s.threads_done, e)) v.follows;
      in_turn = v.in_turn;
      last = v.last;
    }

    ended : Inv (tell (finish t) more) granted
    ended = Inv-IsBeside (told more (finish t) tt) grown

module _ {engine : Engine} {object_key : String → ℕ} {n : ℕ} {recorder : Bool}
    {bridge : Option Bridge} where
  Run-Inv :
      {s : Dpor} {granted : List ℕ} {came : ℕ → List (ℕ × String)}
      → Run engine object_key n recorder bridge s granted came
      → Inv s granted
  unfolding init report_error
  Run-Inv Run.start =
      next-Inv engine (blank n recorder bridge) start_with-IsAdopting
        (record { follows = start; in_turn = tt })
  Run-Inv (Run.sync_event {s} event t obj r) =
      Inv-IsBeside (sync-IsBeside event t obj s) (Run-Inv r)
  Run-Inv (Run.io_event {s} t resource kind r) =
      Inv-IsBeside (io-IsBeside object_key t resource kind s) (Run-Inv r)
  Run-Inv (Run.collected {s} flushed t r) =
      Inv-IsBeside (collect-IsBeside object_key flushed t s) (Run-Inv r)
  Run-Inv (Run.looked {s} {granted = granted} t place e r) =
      subst (λ x. Inv x.1 (granted ++ grant t x.0)) e (look-Inv engine t place s (Run-Inv r))
  Run-Inv (Run.expired {s} {granted = granted} t e r) =
      subst (λ (x : Answer × Dpor). Inv x.1 granted) e (time_out-Inv engine t s (Run-Inv r))
  Run-Inv (Run.done {s} t r) = mark_done-Inv engine t s (Run-Inv r)
  Run-Inv (Run.failed {s} e r) = Inv-IsBeside (error-IsBeside e s) (Run-Inv r)
  Run-Inv (Run.enters {s} os_tid t e r) = Inv-IsBeside (setup-IsBeside os_tid t s) (Run-Inv r)
  Run-Inv (Run.leaves {s} os_tid t r) = Inv-IsBeside (teardown-IsBeside os_tid t s) (Run-Inv r)

  -- In every run the decisions of the engine, in order and less the one that is current, are the
  -- granted turns, less decisions for threads that are done; and every access is told to the engine
  -- while its last decision is the thread that accesses.
  pub Run-decisions :
      {s : Dpor} {granted : List ℕ} {came : ℕ → List (ℕ × String)}
      → Run engine object_key n recorder bridge s granted came
      → (settled : List ℕ) × (decisions s.log ≡ settled ++ to_list s.current_thread)
        × Follows s.threads_done settled granted
        × InTurn none s.log
  Run-decisions r = let v = Run-Inv r in (v.settled, v.decided, v.follows, v.in_turn)
