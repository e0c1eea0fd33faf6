-- ===== src/Dpor/Apart.antt =====
-- frontrun/dpor.py, the steps that leave the locks and the blocked threads as they are.
use frontrun.Prelude.{
  either_way, ℕ, ◌≡◌, refl, sym, ap, ◌∙◌, Bool, false, ◌||◌, Option, none, some, List, [], ◌∷◌, map,
  String, string_eq, nat_eq, ◌==◌, is_some, inl, inr, add,
}
use mathlib.Core.Path.{subst}
use frontrun.PreloadBridge.{IoEvent, Bridge}
use frontrun.Shadow.{Report}
use frontrun.Dpor.{
  Call, scheduled, access, finish, Dpor, Engine, Place, Answer, tell, look, time_out, mark_done,
  report_error, schedule_next, process, after_process, is_thread, in_done,
}
use frontrun.Dpor.Sync.{collect_io, flush, merge, io_call, setup_dpor_tls, teardown_dpor_tls}
use frontrun.Dpor.Settle.{schedule_next-cases, process-accesses}
use frontrun.Dpor.Log.{is_blocked, is_blocked-append}

-- Nothing of locks changes.
pub record IsApart (s s' : Dpor) : Type 0 where
  pub blocked : (t : ℕ) → is_blocked t false s'.log ≡ is_blocked t false s.log
  pub waiters : s'.lock_waiters ≡ s.lock_waiters

pub told-IsApart :
    (s : Dpor) (c : Call)
    → ((t : ℕ) (b : Bool) → is_blocked t b (c ∷ []) ≡ b)
    → IsApart s (tell c s)
told-IsApart s c h = record {
  blocked = λ t. is_blocked-append t false s.log (c ∷ []) ∙ h t (is_blocked t false s.log);
  waiters = refl;
}

pub apart : (s : Dpor) → IsApart s s
apart s = record { blocked = λ t. refl; waiters = refl }

is_blocked-ios :
    (t u : ℕ) (b : Bool) (es : List (ℕ × String)) → is_blocked t b (map (io_call u) es) ≡ b
is_blocked-ios t u b [] = refl
is_blocked-ios t u b ((k, kind) ∷ es) = is_blocked-ios t u b es

is_blocked-accesses :
    (t u : ℕ) (b : Bool) (rs : List Report) → is_blocked t b (map (access u) rs) ≡ b
is_blocked-accesses t u b [] = refl
is_blocked-accesses t u b (r ∷ rs) = is_blocked-accesses t u b rs

pub flush-IsApart : (t : ℕ) (s : Dpor) → IsApart s (flush t s)
unfolding flush
flush-IsApart t s =
    either_way (IsApart s) ((s.locals t).lock_depth == 0)
      (record {
        blocked = λ u.
            is_blocked-append u false s.log (map (io_call t) (s.locals t).pending_io)
            ∙ is_blocked-ios u t (is_blocked u false s.log) (s.locals t).pending_io;
        waiters = refl;
      })
      (apart s)

pub collect-IsApart :
    (object_key : String → ℕ) (flushed : List IoEvent) (t : ℕ) (s : Dpor)
    → IsApart s (collect_io object_key flushed t s)
unfolding collect_io
collect-IsApart object_key flushed t s = merged s.bridge
  where
    merged : (b : Option Bridge) → IsApart s (flush t (merge object_key flushed t b s))
    merged none = flush-IsApart t s
    merged (some b) =
        let f = flush-IsApart t (merge object_key flushed t (some b) s) in
        record { blocked = f.blocked; waiters = f.waiters }

pub next-IsApart : (engine : Engine) (s : Dpor) → IsApart s (schedule_next engine s).1
next-IsApart engine s = elim (schedule_next-cases engine s) [
  | inl e ↦ subst (λ (x : Option ℕ × Dpor). IsApart s x.1) (sym e) (apart s)
  | inr e ↦
      subst (λ (x : Option ℕ × Dpor). IsApart s x.1) (sym e)
        (told-IsApart s (scheduled (engine.schedule s.log)) (λ u b. refl))
]

pub process-IsApart :
    (t : ℕ) (place : Option Place) (s s' : Dpor) → process t place s ≡ some s' → IsApart s s'
process-IsApart t place s s' e =
    let (rs, log_eq, current_eq, done_eq, waiters_eq) = process-accesses t place s s' e in
    record {
      blocked = λ u.
          ap (is_blocked u false) log_eq
          ∙ is_blocked-append u false s.log (map (access t) rs)
          ∙ is_blocked-accesses u t (is_blocked u false s.log) rs;
      waiters = waiters_eq;
    }

pub look-IsApart :
    (engine : Engine) (t : ℕ) (place : Option Place) (s : Dpor)
    → IsApart s (look engine t place s).1
unfolding look
look-IsApart engine t place s = either_way P (s.finished || is_some s.error) (apart s) (
    either_way P (is_thread t s.current_thread) (by (process t place s) (process-IsApart t place s))
      (apart s))
  where
    P : Answer × Dpor → Type 0
    P x = IsApart s x.1

    by :
        (o : Option Dpor)
        → ((s' : Dpor) → o ≡ some s' → IsApart s s')
        → P (after_process engine s o)
    by none h = apart s
    by (some s') h =
        let a = h s' refl in
        let b = next-IsApart engine s' in
        record { blocked = λ u. b.blocked u ∙ a.blocked u; waiters = b.waiters ∙ a.waiters }

pub time_out-IsApart : (engine : Engine) (t : ℕ) (s : Dpor) → IsApart s (time_out engine t s).1
unfolding time_out
time_out-IsApart engine t s =
    let b = next-IsApart engine s in
    either_way (λ (x : Answer × Dpor). IsApart s x.1) (in_done s.threads_done s.current_thread)
      (record { blocked = b.blocked; waiters = b.waiters })
      (record { blocked = λ u. refl; waiters = refl })

pub mark_done-IsApart : (engine : Engine) (t : ℕ) (s : Dpor) → IsApart s (mark_done engine t s)
unfolding mark_done
mark_done-IsApart engine t s =
    let told : Dpor = tell (finish t) (record s { threads_done = add t s.threads_done }) in
    let a =
      told-IsApart (record s { threads_done = add t s.threads_done }) (finish t) (λ u b. refl) in
    let b = next-IsApart engine told in
    either_way (IsApart s) (is_thread t s.current_thread)
      (record { blocked = λ u. b.blocked u ∙ a.blocked u; waiters = b.waiters ∙ a.waiters })
      (record { blocked = a.blocked; waiters = refl })

pub error-IsApart : (e : ℕ) (s : Dpor) → IsApart s (report_error e s)
unfolding report_error
error-IsApart e s =
    either_way (IsApart s) (is_some s.error) (apart s)
      (record { blocked = λ u. refl; waiters = refl })

pub setup-IsApart : (os_tid t : ℕ) (s : Dpor) → IsApart s (setup_dpor_tls os_tid t s)
unfolding setup_dpor_tls
setup-IsApart os_tid t s = record { blocked = λ u. refl; waiters = refl }

pub teardown-IsApart : (os_tid t : ℕ) (s : Dpor) → IsApart s (teardown_dpor_tls os_tid t s)
unfolding teardown_dpor_tls
teardown-IsApart os_tid t s = record { blocked = λ u. refl; waiters = refl }
