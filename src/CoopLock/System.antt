-- ===== src/CoopLock/System.antt =====
-- Managed threads that use one cooperative lock, interleaved in any order, with a wait-for graph
-- installed. A thread without a scheduler, which takes the real lock and sets no owner, is none of
-- them.
use frontrun.Prelude.{ℕ, ◌≡◌, Bool, true, false, none, some, [], nat_beq, if◌then◌else◌}
use frontrun.WaitGraph.{Node, Graph, thread, lock, has_edge}
use frontrun.CoopLock.{
  Lock, Answer, os_blocked, spinning, acquire, spin, interrupt, os_return, release,
}

-- Where a thread stands: outside of `acquire`, in its spin loop, or in the real lock's `acquire`.
pub data Phase : Type 0 where
  outside looping in_os : Phase

abbrev pub phase_of : Answer → Phase
phase_of spinning = looping
phase_of os_blocked = in_os
phase_of _ = outside

abbrev pub update : (ℕ → Phase) → ℕ → Phase → ℕ → Phase
update ph t p u = if nat_beq t u then p else ph u

abbrev pub edge : Lock → Node → Node → Bool
edge w a b = elim w.graph [ none ↦ false | some g ↦ has_edge g a b ]

pub data Step (id : ℕ) (reports : Bool) (w : Lock) (ph : ℕ → Phase)
    : Lock → (ℕ → Phase) → Type 0 where
  call :
      (t : ℕ) (blocking : Bool)
      → ph t ≡ outside
      → Step id reports w ph
          (acquire id reports (some t) blocking w).1
          (update ph t (phase_of (acquire id reports (some t) blocking w).0))
  look :
      (t : ℕ) (stopped : Bool)
      → ph t ≡ looping
      → Step id reports w ph
          (spin id reports t stopped w).1
          (update ph t (phase_of (spin id reports t stopped w).0))
  raise :
      (t : ℕ)
      → ph t ≡ looping
      → Step id reports w ph (interrupt id reports t w) (update ph t outside)
  -- The real lock is given to a thread only when it is free.
  back :
      (t : ℕ) (result : Bool)
      → ph t ≡ in_os
      → (result ≡ true → w.locked ≡ false)
      → Step id reports w ph (os_return id reports (some t) result w).1 (update ph t outside)
  free : Step id reports w ph (release id reports w).1 ph
  -- Other locks change the graph, and not this lock's edges.
  elsewhere :
      (g : Graph)
      → ((t : ℕ)
          → (has_edge g (lock id) (thread t) ≡ edge w (lock id) (thread t))
            × (has_edge g (thread t) (lock id) ≡ edge w (thread t) (lock id)))
      → Step id reports w ph (record w { graph = some g }) ph

pub data Reach (id : ℕ) (reports : Bool) : Lock → (ℕ → Phase) → Type 0 where
  start :
      (g : Graph)
      → ((t : ℕ)
          → (has_edge g (lock id) (thread t) ≡ false) × (has_edge g (thread t) (lock id) ≡ false))
      → Reach id reports
          (record { locked = false; owner_thread_id = none; graph = some g; events = [] })
          (λ t. outside)
  later :
      {w w' : Lock} {ph ph' : ℕ → Phase}
      → Reach id reports w ph
      → Step id reports w ph w' ph'
      → Reach id reports w' ph'
