-- ===== src/Dpor/Waiters.antt =====
-- frontrun/dpor.py, `_sync_reporter`: whom the engine takes for blocked.
use frontrun.Prelude.{
  either_way, by_test, ℕ, ◌≡◌, refl, sym, ap, ◌∙◌, Bool, true, false, not, ◌&&◌, Option, List, [],
  ◌∷◌, ◌++◌, map, String, string_eq, nat_eq, nat_beq_iff, ◌==◌, if◌then◌else◌, arith, Bool-cases,
  inl, inr, contains, contains-add, contains-discard, lookup-put, lookup-delete, put, delete, add,
  discard,
}
use mathlib.Core.Path.{subst}
use frontrun.PreloadBridge.{Bridge}
use frontrun.Dpor.{block, unblock, sync, Dpor, Engine, Answer, blank, init}
use frontrun.Dpor.Runs.{Run}
use frontrun.Dpor.Sync.{
  waiters_of, waiters_at, stop_waiting, lock_wait, lock_acquire, lock_release, sync_reporter,
  io_reporter,
}
use frontrun.Dpor.Log.{is_blocked, is_blocked-append}
use frontrun.Dpor.Apart.{
  IsApart, told-IsApart, collect-IsApart, next-IsApart, look-IsApart, time_out-IsApart,
  mark_done-IsApart, error-IsApart, setup-IsApart, teardown-IsApart,
}

-- Whoever is blocked is registered as waiting for a lock.
abbrev IsRegistered : Dpor → Type 0
IsRegistered s =
    (t : ℕ)
    → is_blocked t false s.log ≡ true
    → (obj : ℕ) × (contains t (waiters_at obj s.lock_waiters) ≡ true)

is_blocked-unblocks :
    (t : ℕ) (ts : List ℕ) (b : Bool) → is_blocked t b (map unblock ts) ≡ (b && not (contains t ts))
unfolding contains
is_blocked-unblocks t [] b = ground arith
is_blocked-unblocks t (u ∷ ts) b =
    ground (arith, is_blocked-unblocks t ts (if u == t then false else b))

waiters-put :
    (k j : ℕ) (ts : List ℕ) (m : List (ℕ × List ℕ))
    → waiters_at j (put k ts m) ≡ (if k == j then ts else waiters_at j m)
waiters-put k j ts m = elim (Bool-cases (k == j)) [
  | inl e ↦ ap waiters_of (lookup-put k j ts m) ∙ rw e
  | inr e ↦ ap waiters_of (lookup-put k j ts m) ∙ rw e
]

waiters-delete :
    (k j : ℕ) (m : List (ℕ × List ℕ))
    → waiters_at j (delete k m) ≡ (if k == j then [] else waiters_at j m)
waiters-delete k j m = elim (Bool-cases (k == j)) [
  | inl e ↦ ap waiters_of (lookup-delete k j m) ∙ rw e
  | inr e ↦ ap waiters_of (lookup-delete k j m) ∙ rw e
]

lock_wait-IsRegistered : (t obj : ℕ) (s : Dpor) → IsRegistered s → IsRegistered (lock_wait t obj s)
unfolding lock_wait
lock_wait-IsRegistered t obj s h u e = elim (Bool-cases (t == u)) [
  | inl same ↦ (
    obj,
    ground (
      arith,
      waiters-put obj obj (add t (waiters_at obj s.lock_waiters)) s.lock_waiters,
      contains-add t u (waiters_at obj s.lock_waiters),
      (nat_beq_iff obj obj).1 refl,
    ),
  )
  | inr other ↦
      let (o, at) = h u (ground (arith, is_blocked-append u false s.log (block t ∷ []))) in
      (
        o,
        ground (
          arith,
          waiters-put obj o (add t (waiters_at obj s.lock_waiters)) s.lock_waiters,
          contains-add t u (waiters_at obj s.lock_waiters),
          nat_beq_iff obj o,
        ),
      )
]

lock_acquire-IsRegistered :
    (t obj : ℕ) (s : Dpor) → IsRegistered s → IsRegistered (lock_acquire t obj s)
unfolding lock_acquire
lock_acquire-IsRegistered t obj s h u e = stopped u (
    sym (is_blocked-append u false (stop_waiting t obj s).log (sync t "lock_acquire" obj ∷ [])) ∙ e)
  where
    stopped : IsRegistered (stop_waiting t obj s)
    stopped =
        by_test IsRegistered (contains t (waiters_at obj s.lock_waiters))
          (λ waiting. λ u e.
            let free = is_blocked-append u false s.log (unblock t ∷ []) in
            let (o, at) = h u (ground (arith, free)) in
            (
              o,
              ground (
                arith,
                free,
                waiters-put obj o (discard t (waiters_at obj s.lock_waiters)) s.lock_waiters,
                contains-discard t u (waiters_at obj s.lock_waiters),
                nat_beq_iff obj o,
              ),
            ))
          (λ not_waiting. h)

released :
    (t u obj : ℕ) (s : Dpor)
    → is_blocked u false (lock_release t obj s).log
      ≡ (is_blocked u false s.log && not (contains u (waiters_at obj s.lock_waiters)))
unfolding lock_release
released t u obj s =
    is_blocked-append u false (s.log ++ map unblock (waiters_at obj s.lock_waiters))
      (sync t "lock_release" obj ∷ [])
    ∙ is_blocked-append u false s.log (map unblock (waiters_at obj s.lock_waiters))
    ∙ is_blocked-unblocks u (waiters_at obj s.lock_waiters) (is_blocked u false s.log)

lock_release-IsRegistered :
    (t obj : ℕ) (s : Dpor) → IsRegistered s → IsRegistered (lock_release t obj s)
unfolding lock_release
lock_release-IsRegistered t obj s h u e =
    let was = released t u obj s in
    let (o, at) = h u (ground (arith, was)) in
    (o, ground (arith, was, waiters-delete obj o s.lock_waiters, nat_beq_iff obj o))

IsApart-IsRegistered : {s s' : Dpor} → IsApart s s' → IsRegistered s → IsRegistered s'
IsApart-IsRegistered a h t e =
    let (o, at) = h t (sym (a.blocked t) ∙ e) in
    (o, subst (λ m. contains t (waiters_at o m) ≡ true) (sym a.waiters) at)

sync-IsRegistered :
    (event : String) (t obj : ℕ) (s : Dpor)
    → IsRegistered s
    → IsRegistered (sync_reporter event t obj s)
unfolding sync_reporter
sync-IsRegistered event t obj s h =
    either_way IsRegistered (event == "lock_wait") (lock_wait-IsRegistered t obj s h) (
      either_way IsRegistered (event == "lock_acquire") (lock_acquire-IsRegistered t obj s h) (
        either_way IsRegistered (event == "lock_release") (lock_release-IsRegistered t obj s h)
          (IsApart-IsRegistered (told-IsApart s (sync t event obj) (λ u b. refl)) h)))

io-IsRegistered :
    (object_key : String → ℕ) (t : ℕ) (resource kind : String) (s : Dpor)
    → IsRegistered s
    → IsRegistered (io_reporter object_key t resource kind s)
unfolding io_reporter
io-IsRegistered object_key t resource kind s h = h

module _ {engine : Engine} {object_key : String → ℕ} {n : ℕ} {recorder : Bool}
    {bridge : Option Bridge} where
  Run-IsRegistered :
      {s : Dpor} {granted : List ℕ} {came : ℕ → List (ℕ × String)}
      → Run engine object_key n recorder bridge s granted came
      → IsRegistered s
  unfolding init
  Run-IsRegistered Run.start =
      let a = next-IsApart engine (blank n recorder bridge) in
      IsApart-IsRegistered {s = blank n recorder bridge} {s' = init engine n recorder bridge}
        (record { blocked = a.blocked; waiters = a.waiters }) (λ t e. cc e)
  Run-IsRegistered (Run.sync_event {s} event t obj r) =
      sync-IsRegistered event t obj s (Run-IsRegistered r)
  Run-IsRegistered (Run.io_event {s} t resource kind r) =
      io-IsRegistered object_key t resource kind s (Run-IsRegistered r)
  Run-IsRegistered (Run.collected {s} flushed t r) =
      IsApart-IsRegistered (collect-IsApart object_key flushed t s) (Run-IsRegistered r)
  Run-IsRegistered (Run.looked {s} t place e r) =
      subst (λ (x : Answer × Dpor). IsRegistered x.1) e
        (IsApart-IsRegistered (look-IsApart engine t place s) (Run-IsRegistered r))
  Run-IsRegistered (Run.expired {s} t e r) =
      subst (λ (x : Answer × Dpor). IsRegistered x.1) e
        (IsApart-IsRegistered (time_out-IsApart engine t s) (Run-IsRegistered r))
  Run-IsRegistered (Run.done {s} t r) =
      IsApart-IsRegistered (mark_done-IsApart engine t s) (Run-IsRegistered r)
  Run-IsRegistered (Run.failed {s} e r) =
      IsApart-IsRegistered (error-IsApart e s) (Run-IsRegistered r)
  Run-IsRegistered (Run.enters {s} os_tid t e r) =
      IsApart-IsRegistered (setup-IsApart os_tid t s) (Run-IsRegistered r)
  Run-IsRegistered (Run.leaves {s} os_tid t r) =
      IsApart-IsRegistered (teardown-IsApart os_tid t s) (Run-IsRegistered r)

  -- In every run, a thread that the execution holds for blocked is registered as waiting for a lock,
  -- and a release of that lock, by any thread, unblocks it.
  pub Run-unblocked :
      {s : Dpor} {granted : List ℕ} {came : ℕ → List (ℕ × String)} (t : ℕ)
      → Run engine object_key n recorder bridge s granted came
      → is_blocked t false s.log ≡ true
      → (obj : ℕ) × (contains t (waiters_at obj s.lock_waiters) ≡ true)
        × ((u : ℕ) → is_blocked t false (sync_reporter "lock_release" u obj s).log ≡ false)
  unfolding sync_reporter
  Run-unblocked {s} t r e =
      let (obj, at) = Run-IsRegistered r t e in (obj, at, λ u. released u t obj s ∙ rw (e, at))
