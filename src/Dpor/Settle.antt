-- ===== src/Dpor/Settle.antt =====
-- frontrun/dpor.py, DporScheduler: what one decision of the engine and its turn leave.
use frontrun.Prelude.{
  ℕ, ◌≡◌, refl, sym, ap, ◌∙◌, true, Option, none, some, List, [], ◌∷◌, ◌++◌, map, string_eq, nat_eq,
  nat_beq_iff, ◌⊎◌, inl, inr,
}
use mathlib.Core.List.{append-nil}
use mathlib.Core.Path.{subst}
use frontrun.Opcode.Follow.{Follows, Follows-ran}
use frontrun.Shadow.{Report, Shadow}
use frontrun.Shadow.Process.{process_opcode}
use frontrun.Dpor.{
  scheduled, access, Engine, Dpor, Place, tell, schedule_next, process, processed, hand_over,
  is_thread, after_done, start_with, get_shadow_stack,
}
use frontrun.Dpor.Log.{
  to_list, decisions, decision_after, InTurn, decisions-append, decision_after-append,
  InTurn-append, decisions-IsAside, decision_after-IsAside, decisions-accesses, InTurn-accesses,
}
use frontrun.Dpor.Beside.{IsBeside}

some_inj : {s' t : Dpor} → some s' ≡ some t → s' ≡ t
some_inj e = cc e

-- What the turns are so far: the decisions but the current one were granted, or fell to threads that
-- are done, and every access was in turn.
pub record Inv (s : Dpor) (granted : List ℕ) : Type 0 where
  pub settled : List ℕ
  pub decided : decisions s.log ≡ settled ++ to_list s.current_thread
  pub follows : Follows s.threads_done settled granted
  pub in_turn : InTurn none s.log
  pub last : (t : ℕ) → s.current_thread ≡ some t → decision_after none s.log ≡ some t

pub Inv-IsBeside : {s s' : Dpor} {granted : List ℕ} → IsBeside s s' → Inv s granted → Inv s' granted
Inv-IsBeside {s} {s'} {granted} b v = record {
  settled = v.settled;
  decided =
      ap decisions b.log
      ∙ decisions-append s.log b.calls
      ∙ ap (λ l. decisions s.log ++ l) (decisions-IsAside b.calls b.aside)
      ∙ append-nil (decisions s.log)
      ∙ v.decided
      ∙ ap (λ c. v.settled ++ to_list c) (sym b.current);
  follows = subst (λ d. Follows d v.settled granted) (sym b.done) v.follows;
  in_turn = subst (InTurn none) (sym b.log) (
      InTurn-append none s.log b.calls v.in_turn
        (decision_after-IsAside (decision_after none s.log) b.calls b.aside).1);
  last = λ t e.
      ap (decision_after none) b.log
      ∙ decision_after-append none s.log b.calls
      ∙ (decision_after-IsAside (decision_after none s.log) b.calls b.aside).0
      ∙ v.last t (sym b.current ∙ e);
}

-- As before, where the current turn has been settled.
pub record Settled (s : Dpor) (granted : List ℕ) : Type 0 where
  pub follows : Follows s.threads_done (decisions s.log) granted
  pub in_turn : InTurn none s.log

pub schedule_next-cases :
    (engine : Engine) (s : Dpor)
    → (schedule_next engine s ≡ (none, s))
      ⊎ (schedule_next engine s
          ≡ (engine.schedule s.log, tell (scheduled (engine.schedule s.log)) s))
unfolding schedule_next
schedule_next-cases engine s = by (engine.runnable s.log)
  where
    next : List ℕ → Option ℕ × Dpor
    next l = elim l [
      | [] ↦ (none, s)
      | t ∷ ts ↦ (engine.schedule s.log, tell (scheduled (engine.schedule s.log)) s)
    ]

    by :
        (l : List ℕ)
        → (next l ≡ (none, s))
          ⊎ (next l ≡ (engine.schedule s.log, tell (scheduled (engine.schedule s.log)) s))
    by [] = inl refl
    by (t ∷ ts) = inr refl

-- What becomes of the answer: it is the current thread, and little else changes.
pub record IsAdopting (f : Option ℕ × Dpor → Dpor) : Type 0 where
  pub current : (d : Option ℕ) (s : Dpor) → (f (d, s)).current_thread ≡ d
  pub log : (d : Option ℕ) (s : Dpor) → (f (d, s)).log ≡ s.log
  pub done : (d : Option ℕ) (s : Dpor) → (f (d, s)).threads_done ≡ s.threads_done

pub next-Inv :
    {f : Option ℕ × Dpor → Dpor} (engine : Engine) (s : Dpor) {granted : List ℕ}
    → IsAdopting f
    → Settled s granted
    → Inv (f (schedule_next engine s)) granted
next-Inv {f} engine s {granted} ad v = elim (schedule_next-cases engine s) [
  | inl e ↦
      subst (λ x. Inv (f x) granted) (sym e)
        (record {
          settled = decisions s.log;
          decided =
              ap decisions (ad.log none s)
              ∙ sym (append-nil (decisions s.log))
              ∙ ap (λ c. decisions s.log ++ to_list c) (sym (ad.current none s));
          follows =
              subst (λ d. Follows d (decisions s.log) granted) (sym (ad.done none s)) v.follows;
          in_turn = subst (InTurn none) (sym (ad.log none s)) v.in_turn;
          last = λ t e'. absurd (none_some (sym (ad.current none s) ∙ e'));
        })
  | inr e ↦ subst (λ x. Inv (f x) granted) (sym e) (chosen (engine.schedule s.log))
]
  where
    none_some : {t : ℕ} → ◌≡◌ {A = Option ℕ} none (some t) → ⊥
    none_some e = cc e

    chosen : (d : Option ℕ) → Inv (f (d, tell (scheduled d) s)) granted
    chosen d = record {
      settled = decisions s.log;
      decided =
          ap decisions (ad.log d (tell (scheduled d) s))
          ∙ decisions-append s.log (scheduled d ∷ [])
          ∙ ap (λ l. decisions s.log ++ l) (append-nil (to_list d))
          ∙ ap (λ c. decisions s.log ++ to_list c) (sym (ad.current d (tell (scheduled d) s)));
      follows =
          subst (λ ts. Follows ts (decisions s.log) granted)
            (sym (ad.done d (tell (scheduled d) s))) v.follows;
      in_turn =
          subst (InTurn none) (sym (ad.log d (tell (scheduled d) s)))
            (InTurn-append none s.log (scheduled d ∷ []) v.in_turn tt);
      last = λ t e'.
          ap (decision_after none) (ad.log d (tell (scheduled d) s))
          ∙ decision_after-append none s.log (scheduled d ∷ [])
          ∙ sym (ad.current d (tell (scheduled d) s))
          ∙ e';
    }

pub hand_over-IsAdopting : IsAdopting hand_over
hand_over-IsAdopting = record { current = λ d s. refl; log = λ d s. refl; done = λ d s. refl }

pub after_done-IsAdopting : IsAdopting after_done
after_done-IsAdopting = record { current = λ d s. refl; log = λ d s. refl; done = λ d s. refl }

pub start_with-IsAdopting : IsAdopting start_with
start_with-IsAdopting = record { current = λ d s. refl; log = λ d s. refl; done = λ d s. refl }

pub current_is : (t : ℕ) (c : Option ℕ) → is_thread t c ≡ true → c ≡ some t
current_is t none e = cc e
current_is t (some u) e = ap some ((nat_beq_iff u t).0 e)

-- A step of a thread: the accesses of one instruction, and nothing else of the turns.
pub process-accesses :
    (t : ℕ) (place : Option Place) (s s' : Dpor)
    → process t place s ≡ some s'
    → (rs : List Report) × (s'.log ≡ s.log ++ map (access t) rs)
      × (s'.current_thread ≡ s.current_thread)
      × (s'.threads_done ≡ s.threads_done)
      × (s'.lock_waiters ≡ s.lock_waiters)
unfolding process
process-accesses t none s s' e =
    let e' = some_inj e in
    (
      [],
      sym (ap (λ (x : Dpor). x.log) e') ∙ sym (append-nil s.log),
      sym (ap (λ (x : Dpor). x.current_thread) e'),
      sym (ap (λ (x : Dpor). x.threads_done) e'),
      sym (ap (λ (x : Dpor). x.lock_waiters) e'),
    )
process-accesses t (some p) s s' e =
    by
      (process_opcode p.runtime p.frame s.has_recorder p.op
        (get_shadow_stack p.frame_id (s.locals t)))
      e
  where
    by :
        (o : Option Shadow)
        → processed t p.frame_id s o ≡ some s'
        → (rs : List Report) × (s'.log ≡ s.log ++ map (access t) rs)
          × (s'.current_thread ≡ s.current_thread)
          × (s'.threads_done ≡ s.threads_done)
          × (s'.lock_waiters ≡ s.lock_waiters)
    by none e = cc e
    by (some sh) e =
        let e' = some_inj e in
        (
          sh.reports,
          sym (ap (λ (x : Dpor). x.log) e'),
          sym (ap (λ (x : Dpor). x.current_thread) e'),
          sym (ap (λ (x : Dpor). x.threads_done) e'),
          sym (ap (λ (x : Dpor). x.lock_waiters) e'),
        )

-- The current thread's instruction settles its turn.
pub process-Settled :
    (t : ℕ) (place : Option Place) (s s' : Dpor) {granted : List ℕ}
    → Inv s granted
    → s.current_thread ≡ some t
    → process t place s ≡ some s'
    → Settled s' (granted ++ (t ∷ []))
process-Settled t place s s' {granted} v now e =
    let (rs, log_eq, current_eq, done_eq, waiters_eq) = process-accesses t place s s' e in
    let last = v.last t now in
    record {
      follows =
          subst (λ d. Follows d (decisions s'.log) (granted ++ (t ∷ []))) (sym done_eq)
            (subst (λ l. Follows s.threads_done l (granted ++ (t ∷ [])))
              (sym (
                ap decisions log_eq
                ∙ decisions-append s.log (map (access t) rs)
                ∙ ap (λ l. decisions s.log ++ l) (decisions-accesses t none rs).0
                ∙ append-nil (decisions s.log)
                ∙ v.decided
                ∙ ap (λ c. v.settled ++ to_list c) now))
              (Follows-ran t v.follows));
      in_turn = subst (InTurn none) (sym log_eq) (
          InTurn-append none s.log (map (access t) rs) v.in_turn
            (subst (λ d. InTurn d (map (access t) rs)) (sym last) (InTurn-accesses t rs)));
    }
