-- ===== src/Semaphore.antt =====
-- frontrun/_cooperative.py, CooperativeSemaphore and CooperativeBoundedSemaphore. The internal lock
-- is held for the test and the change of the counter, so both are one step.
pub mod Balance
mod Tests
use frontrun.Prelude.{
  ℕ, zero, suc, ◌+◌, ◌-◌, Bool, true, false, Option, none, some, List, [], ◌∷◌, ◌++◌, if◌then◌else◌,
  ltb,
}

pub data Event : Type 0 where
  lock_acquire lock_wait lock_release : Event

-- `initial_value` is that of a bounded semaphore; a plain one has none. `events` is what the sync
-- reporter was told, the latest last.
pub record Semaphore : Type 0 where
  pub value : ℕ
  pub initial_value : Option ℕ
  pub events : List Event

-- A negative value, which raises ValueError, is no number of ℕ.
unfoldable pub init : Bool → ℕ → Semaphore
init bounded value = record {
  value = value;
  initial_value = if bounded then some value else none;
  events = [];
}

-- `acquire` returns True or False, raises SchedulerAbort, or comes to the head of a loop again: the
-- loop of a managed thread (`looping`), the loop that it enters when the scheduler has finished
-- (`draining`), or the loops of a thread that is not managed (`sleeping`).
pub data Answer : Type 0 where
  acquired not_acquired aborted looping draining sleeping : Answer

-- Whether the calling thread has a sync reporter.
module _ (has_reporter : Bool) where
  unfoldable pub report : Event → Semaphore → Semaphore
  report e s = if has_reporter then record s { events = s.events ++ (e ∷ []) } else s

  -- The counter is taken down if it is positive; else the call goes on with `next`.
  unfoldable pub take_or : Answer × Semaphore → Semaphore → Answer × Semaphore
  take_or next s =
      if ltb 0 s.value
      then (acquired, report lock_acquire (record s { value = s.value - 1 }))
      else next

  -- Up to the head of a loop. `managed` says whether the thread has a scheduler context.
  unfoldable pub acquire : (managed blocking : Bool) → Semaphore → Answer × Semaphore
  acquire managed blocking s =
      take_or
        (if blocking
          then (if managed then (looping, report lock_wait s) else (sleeping, s))
          else (not_acquired, s))
        s

  -- A round of a managed thread's loop; `error` and `finished` are the scheduler's.
  unfoldable pub look : (error finished : Bool) → Semaphore → Answer × Semaphore
  look error finished s =
      if error then (aborted, s) else take_or (if finished then (draining, s) else (looping, s)) s

  -- A round after the scheduler has finished; `late` says whether the deadline has passed.
  unfoldable pub drain : (late : Bool) → Semaphore → Answer × Semaphore
  drain late s = if late then (not_acquired, s) else take_or (draining, s) s

  -- A round without a scheduler; `late` says whether there is a deadline and it has passed.
  unfoldable pub retry : (late : Bool) → Semaphore → Answer × Semaphore
  retry late s = take_or (if late then (not_acquired, s) else (sleeping, s)) s

  -- `release(n)` of either class. False is a ValueError.
  unfoldable pub release : ℕ → Semaphore → Bool × Semaphore
  release zero s = (false, s)
  release (suc n) s = elim s.initial_value [
    | none ↦ (true, report lock_release (record s { value = s.value + suc n }))
    | some v ↦
        if ltb v (s.value + suc n) then (false, s) else (true, record s { value = s.value + suc n })
  ]
