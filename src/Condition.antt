-- ===== src/Condition.antt =====
-- frontrun/_cooperative.py, CooperativeCondition: the counter that managed threads wait on. The
-- lock's own acquire and release are those of CoopLock; here they return or raise.
pub mod Wakeups
mod Tests
use frontrun.Prelude.{
  ℕ, ◌+◌, ◌-◌, Bool, true, false, not, Option, none, some, if◌then◌else◌, ltb, nat_eq, ◌==◌,
}

pub record Condition : Type 0 where
  pub notify_count : ℕ
  pub waiters : ℕ

unfoldable pub init : Condition
init = record { notify_count = 0; waiters = 0 }

-- The lock as `_check_owned` reads it: a CooperativeRLock's `_is_owned`, or a CooperativeLock's
-- owner and whether it is locked.
pub data Held : Type 0 where
  reentrant : (is_owned : Bool) → Held
  plain : (owner : Option ℕ) (locked : Bool) → Held

abbrev pub owned_by : Option ℕ → ℕ → Bool
owned_by none t = false
owned_by (some u) t = u == t

-- `ctx` is the caller's thread id, if it is managed. False is the RuntimeError.
unfoldable pub check_owned : Option ℕ → Held → Bool
check_owned ctx (reentrant is_owned) = is_owned
check_owned (some t) (plain owner locked) = owned_by owner t
check_owned none (plain owner locked) = locked

abbrev pub max : ℕ → ℕ → ℕ
max a b = if ltb a b then b else a

-- `wait` up to its `try`: the snapshot of the counter, and the condition. `released` says whether the
-- release of the lock returns; where it raises, the call is over.
unfoldable pub begin_wait : (released : Bool) → Condition → Option ℕ × Condition
begin_wait released c =
    (if released then some c.notify_count else none, record c { waiters = c.waiters + 1 })

-- How a round of the loop of `wait` ends: it returns True or False, raises SchedulerAbort, begins to
-- sleep because the scheduler has finished, or hands its turn over.
pub data Answer : Type 0 where
  notified timed_out aborted draining looping : Answer

-- One round; `late` says whether there is a timeout and it has passed.
unfoldable pub look :
    (error finished late : Bool) → (notify_count_before_wait : ℕ) → Condition → Answer
look error finished late before c =
    if not (ltb before c.notify_count)
    then (if error
        then aborted
        else if finished
        then draining
        else if late
        then timed_out
        else looping)
    else notified

-- What is returned after the sleep of a finished scheduler.
unfoldable pub drained : (notify_count_before_wait : ℕ) → Condition → Answer
drained before c = if ltb before c.notify_count then notified else timed_out

-- The `finally` block. `acquired` says whether the lock is taken again, or its acquire raises.
unfoldable pub end_wait : (acquired : Bool) → Condition → Condition
end_wait acquired c = if acquired then record c { waiters = c.waiters - 1 } else c

-- False is the RuntimeError.
unfoldable pub notify : Option ℕ → Held → ℕ → Condition → Bool × Condition
notify ctx held n c =
    if check_owned ctx held
    then (true, record c { notify_count = c.notify_count + n })
    else (false, c)

unfoldable pub notify_all : Option ℕ → Held → Condition → Bool × Condition
notify_all ctx held c =
    if check_owned ctx held
    then (true, record c { notify_count = c.notify_count + max c.waiters 1 })
    else (false, c)
