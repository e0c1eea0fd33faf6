-- ===== src/CoopLock/Mirror.antt =====
-- CooperativeLock: the wait-for graph and the lock, as managed threads use it.
use mathlib.Core.Path.{subst}
use frontrun.Prelude.{
  ℕ, ◌≡◌, refl, sym, ap, ◌∙◌, Bool, true, false, some, if◌then◌else◌, is_some, arith, Bool-cases,
  inl, inr,
}
use frontrun.WaitGraph.{thread, lock, remove_waiting, add_holding}
use frontrun.CoopLock.{
  Lock, Event, Answer, acquired, not_acquired, os_blocked, spinning, acquire, spin, interrupt,
  os_return, report, on_graph, begin_wait,
}
use frontrun.CoopLock.System.{
  Phase, outside, looping, in_os, phase_of, update, edge, Step, call, look, raise, back, free,
  elsewhere, Reach, start, later,
}
use frontrun.CoopLock.Edits.{
  Mirror, owns, is_looping, take_lock-Mirror, leave_loop-Mirror, same_phase, begin_wait-Mirror,
  spin_take-Mirror, release-Mirror,
}

-- The outcome of a step of thread `t` leaves the graph right.
abbrev Ends : ℕ → ℕ → (ℕ → Phase) → Answer × Lock → Type 0
Ends id t ph o = Mirror id o.1 (update ph t (phase_of o.0))

carry :
    {id : ℕ} (t : ℕ) (ph : ℕ → Phase) {o o' : Answer × Lock}
    → o ≡ o'
    → Ends id t ph o'
    → Ends id t ph o
carry {id} t ph e = subst (Ends id t ph) (sym e)

acquire-busy :
    (w : Lock) (id : ℕ) (reports : Bool) (t : ℕ) (blocking : Bool)
    → w.locked ≡ true
    → acquire id reports (some t) blocking w
      ≡ (if blocking then begin_wait id reports t w else (not_acquired, w))
unfolding acquire
acquire-busy w id reports t blocking busy = ground arith

acquire-Mirror :
    {id : ℕ} {w : Lock} {ph : ℕ → Phase} (reports : Bool) (t : ℕ) (blocking : Bool)
    → ph t ≡ outside
    → Mirror id w ph
    → Mirror id
        (acquire id reports (some t) blocking w).1
        (update ph t (phase_of (acquire id reports (some t) blocking w).0))
unfolding acquire
acquire-Mirror {id} {w} {ph} reports t blocking out m = elim (Bool-cases w.locked) [
  | inl busy ↦ carry t ph (acquire-busy w id reports t blocking busy) (waits blocking)
  | inr unlocked ↦
      rw (unlocked, acquire) (take_lock-Mirror reports t m unlocked (ap is_looping out))
]
  where
    waits : (b : Bool) → Ends id t ph (if b then begin_wait id reports t w else (not_acquired, w))
    waits true = begin_wait-Mirror reports t m
    waits false = same_phase (λ u. ground arith) m

spin-Mirror :
    {id : ℕ} {w : Lock} {ph : ℕ → Phase} (reports : Bool) (t : ℕ) (stopped : Bool)
    → ph t ≡ looping
    → Mirror id w ph
    → Mirror id
        (spin id reports t stopped w).1
        (update ph t (phase_of (spin id reports t stopped w).0))
unfolding spin
spin-Mirror {id} {w} {ph} reports t stopped loops m = elim (Bool-cases w.locked) [
  | inl busy ↦ carry t ph (spin_busy busy) (stays stopped)
  | inr unlocked ↦ carry t ph (spin_free unlocked) (spin_take-Mirror reports t m unlocked)
]
  where
    spin_busy :
        w.locked ≡ true
        → spin id reports t stopped w
          ≡ (if stopped then (os_blocked, on_graph (remove_waiting t id) w) else (spinning, w))
    spin_busy e = ground arith

    spin_free :
        w.locked ≡ false
        → spin id reports t stopped w ≡ (
          acquired,
          report reports Event.lock_acquire
              (record (on_graph
                (add_holding t id)
                (on_graph (remove_waiting t id) (record w { locked = true }))) {
                  owner_thread_id = some t;
                }),
        )
    spin_free e = ground arith

    stays :
        (b : Bool)
        → Ends id t ph (if b then (os_blocked, on_graph (remove_waiting t id) w) else (spinning, w))
    stays true = leave_loop-Mirror t in_os m refl
    stays false = same_phase (λ u. ground arith) m

os_return-Mirror :
    {id : ℕ} {w : Lock} {ph : ℕ → Phase} (reports : Bool) (t : ℕ) (result : Bool)
    → ph t ≡ in_os
    → (result ≡ true → w.locked ≡ false)
    → Mirror id w ph
    → Mirror id (os_return id reports (some t) result w).1 (update ph t outside)
unfolding os_return
os_return-Mirror reports t true in_real granted m =
    take_lock-Mirror reports t m (granted refl) (ap is_looping in_real)
os_return-Mirror {ph = ph} reports t false in_real granted m = same_phase (λ u. ground arith) m

interrupt-Mirror :
    {id : ℕ} {w : Lock} {ph : ℕ → Phase} (reports : Bool) (t : ℕ)
    → Mirror id w ph
    → Mirror id (interrupt id reports t w) (update ph t outside)
unfolding interrupt
interrupt-Mirror reports t m = leave_loop-Mirror t outside m refl

Step-Mirror :
    {id : ℕ} {reports : Bool} {w w' : Lock} {ph ph' : ℕ → Phase}
    → Step id reports w ph w' ph'
    → Mirror id w ph
    → Mirror id w' ph'
Step-Mirror {reports = reports} (call t blocking out) m = acquire-Mirror reports t blocking out m
Step-Mirror {reports = reports} (look t stopped loops) m = spin-Mirror reports t stopped loops m
Step-Mirror {reports = reports} (raise t loops) m = interrupt-Mirror reports t m
Step-Mirror {reports = reports} (back t result in_real granted) m =
    os_return-Mirror reports t result in_real granted m
Step-Mirror {reports = reports} free m = release-Mirror reports m
Step-Mirror (elsewhere g same) m = record {
  installed = refl;
  held = m.held;
  holding = λ u. (same u).0 ∙ m.holding u;
  waiting = λ u. (same u).1 ∙ m.waiting u;
}

Reach-all :
    {id : ℕ} {reports : Bool} {w : Lock} {ph : ℕ → Phase} → Reach id reports w ph → Mirror id w ph
Reach-all (start g h) = record {
  installed = refl;
  held = refl;
  holding = λ t. (h t).0;
  waiting = λ t. (h t).1;
}
Reach-all (later r st) = Step-Mirror st (Reach-all r)

-- In every state that managed threads reach, with a wait-for graph installed, the graph has exactly
-- one edge out of the lock, to its owner, where the lock is held, and an edge into it from exactly
-- the threads in their spin loops; and the real lock is held exactly where there is an owner.
pub Reach-Mirror :
    {id : ℕ} {reports : Bool} {w : Lock} {ph : ℕ → Phase}
    → Reach id reports w ph
    → (w.locked ≡ is_some w.owner_thread_id)
      × ((t : ℕ)
          → (edge w (lock id) (thread t) ≡ owns w.owner_thread_id t)
            × (edge w (thread t) (lock id) ≡ is_looping (ph t)))
Reach-Mirror r = let m = Reach-all r in (m.held, λ t. (m.holding t, m.waiting t))
