-- ===== src/CoopRlock/System.antt =====
-- CooperativeRLock: threads that use one lock, interleaved in any order.
use frontrun.Prelude.{ℕ, suc, ◌-◌, ◌≡◌, Bool, true, false, Option, if◌then◌else◌, nat_beq}
use frontrun.WaitGraph.{Graph}
use frontrun.CoopRlock.{Rlock, new, Answer, acquired, acquire, spin, interrupt, os_return, release}

-- A thread's depth: its calls of `acquire` that returned True, less its releases.
abbrev pub deeper : Answer → ℕ → (ℕ → ℕ) → ℕ → ℕ
deeper acquired me d u = if nat_beq me u then suc (d u) else d u
deeper _ me d u = d u

abbrev pub shallower : Bool → ℕ → (ℕ → ℕ) → ℕ → ℕ
shallower true me d u = if nat_beq me u then d u - 1 else d u
shallower false me d u = d u

-- Any threads, managed or not, at any point of their calls. A thread waits only where it does not
-- hold the lock, and the real lock is given to a thread only when it is free.
pub data Run (id : ℕ) (reports : Bool) : Rlock → (ℕ → ℕ) → Type 0 where
  start : (g : Option Graph) → Run id reports (new g) (λ t. 0)
  call :
      {w : Rlock} {d : ℕ → ℕ} (me : ℕ) (ctx : Option ℕ) (blocking : Bool)
      → Run id reports w d
      → Run id reports
          (acquire id reports me ctx blocking w).1
          (deeper (acquire id reports me ctx blocking w).0 me d)
  look :
      {w : Rlock} {d : ℕ → ℕ} (me t : ℕ) (stopped : Bool)
      → Run id reports w d
      → Run id reports
          (spin id reports me t stopped w).1
          (deeper (spin id reports me t stopped w).0 me d)
  raise :
      {w : Rlock} {d : ℕ → ℕ} (t : ℕ)
      → Run id reports w d
      → Run id reports (interrupt id reports t w) d
  back :
      {w : Rlock} {d : ℕ → ℕ} (me : ℕ) (ctx : Option ℕ) (result : Bool)
      → (result ≡ true → w.locked ≡ false)
      → Run id reports w d
      → Run id reports
          (os_return id reports me ctx result w).1
          (deeper (os_return id reports me ctx result w).0 me d)
  free :
      {w : Rlock} {d : ℕ → ℕ} (me : ℕ)
      → Run id reports w d
      → Run id reports (release id reports me w).1 (shallower (release id reports me w).0 me d)
