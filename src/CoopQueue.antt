-- ===== src/CoopQueue.antt =====
-- frontrun/_cooperative.py, CooperativeQueue: get and put are cut where they hand over their turn.
-- The queue inside is the standard library's and a parameter; its kind is that of the subclass.
pub mod History
mod Tests
use frontrun.Prelude.{Bool, true, false, not, Option, none, some, if◌then◌else◌}

-- `get(block=False)` and `put(item, block=False)`; none is queue.Empty or queue.Full.
pub record Inner (Item Q : Type 0) : Type 0 where
  pub get : Q → Option (Item × Q)
  pub put : Item → Q → Option Q

-- A call returns an item or None, raises queue.Empty, queue.Full or SchedulerAbort, sleeps in the
-- queue inside, or has handed over its turn.
pub data Answer (Item : Type 0) : Type 0 where
  got : Item → Answer Item
  done empty full aborted sleeping looping : Answer Item

module _ {Item Q : Type 0} (inner : Inner Item Q) where
  abbrev pub taken : Option (Item × Q) → Answer Item → Q → Answer Item × Q
  taken none otherwise q = (otherwise, q)
  taken (some (x, q')) otherwise q = (got x, q')

  abbrev pub stored : Option Q → Answer Item → Q → Answer Item × Q
  stored none otherwise q = (otherwise, q)
  stored (some q') otherwise q = (done, q')

  -- `get` up to its loops; `managed` says whether the thread has a scheduler.
  unfoldable pub get : (block managed : Bool) → Q → Answer Item × Q
  get block managed q =
      taken (inner.get q) (if not block then empty else if managed then looping else sleeping) q

  -- What follows a failed attempt in a round; `late` says whether there is a timeout and it has passed.
  abbrev pub goes_on : (finished late : Bool) → Answer Item → Answer Item
  goes_on finished late raised = if finished then sleeping else if late then raised else looping

  -- One round of a loop of `get`.
  unfoldable pub get_round : (error finished late : Bool) → Q → Answer Item × Q
  get_round error finished late q =
      if error then (aborted, q) else taken (inner.get q) (goes_on finished late empty) q

  -- The end of the sleep in the queue inside.
  unfoldable pub get_woken : Q → Answer Item × Q
  get_woken q = taken (inner.get q) empty q

  unfoldable pub get_nowait : Q → Answer Item × Q
  get_nowait q = taken (inner.get q) empty q

  unfoldable pub put : (block managed : Bool) → Item → Q → Answer Item × Q
  put block managed x q =
      stored (inner.put x q) (if not block then full else if managed then looping else sleeping) q

  unfoldable pub put_round : (error finished late : Bool) → Item → Q → Answer Item × Q
  put_round error finished late x q =
      if error then (aborted, q) else stored (inner.put x q) (goes_on finished late full) q

  unfoldable pub put_woken : Item → Q → Answer Item × Q
  put_woken x q = stored (inner.put x q) full q

  unfoldable pub put_nowait : Item → Q → Answer Item × Q
  put_nowait x q = stored (inner.put x q) full q
