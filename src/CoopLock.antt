-- ===== src/CoopLock.antt =====
-- frontrun/_cooperative.py, CooperativeLock: a lock that yields turns where it would block, and
-- keeps its edges in the wait-for graph. A method's code between two scheduler turns is one step.

pub mod System
pub mod Edits
pub mod Mirror
pub mod Tests
use frontrun.Prelude.{
  ℕ, ◌≡◌, Bool, true, false, ◌||◌, Option, none, some, List, [], ◌∷◌, ◌++◌, if◌then◌else◌, is_some,
}
use frontrun.WaitGraph.{Node, Graph, add_waiting, remove_waiting, add_holding, remove_holding}

pub data Event : Type 0 where
  lock_acquire lock_wait lock_release : Event

-- `locked` is the real lock; `graph` the installed wait-for graph, if any; `events` what the sync
-- reporter was told, the latest last.
pub record Lock : Type 0 where
  pub locked : Bool
  pub owner_thread_id : Option ℕ
  pub graph : Option Graph
  pub events : List Event

-- How a step of `acquire` ends: it returns True or False, blocks in the real lock's `acquire`,
-- stands at the head of the spin loop, or raises SchedulerAbort.
pub data Answer : Type 0 where
  acquired not_acquired os_blocked spinning aborted : Answer

-- `has_reporter` says whether the calling thread has a sync reporter.
unfoldable pub report : Bool → Event → Lock → Lock
report has_reporter e w = if has_reporter then record w { events = w.events ++ (e ∷ []) } else w

-- `graph.…(thread_id, self._object_id)`, where a graph is installed
abbrev pub on_graph : (Graph → Graph) → Lock → Lock
on_graph f w = elim w.graph [ none ↦ w | some g ↦ record w { graph = some (f g) } ]

-- The identity of the lock object, and whether threads report.
module _ (object_id : ℕ) (has_reporter : Bool) where
  abbrev pub own : Option ℕ → Lock → Lock
  own none w = w
  own (some t) w = on_graph (add_holding t object_id) (record w { owner_thread_id = some t })

  -- `ctx` is the calling thread's id, if it is managed.
  unfoldable pub set_owner_and_report : Option ℕ → Event → Lock → Lock
  set_owner_and_report ctx e w = report has_reporter e (own ctx w)

  -- `self._lock.acquire(…)` has succeeded.
  abbrev pub take_lock : Option ℕ → Lock → Lock
  take_lock ctx w = set_owner_and_report ctx lock_acquire (record w { locked = true })

  -- The answer of the cycle search; its inner `none` is None.
  abbrev pub after_search : ℕ → Option (Option (List Node)) → Lock → Answer × Lock
  after_search t (some (some cycle)) w = (aborted, on_graph (remove_waiting t object_id) w)
  after_search t _ w = (spinning, report has_reporter lock_wait w)

  -- The slow path of a managed thread up to the head of its loop.
  unfoldable pub begin_wait : ℕ → Lock → Answer × Lock
  begin_wait t w = elim w.graph [
    | none ↦ (spinning, report has_reporter lock_wait w)
    | some g ↦
        let (g', found) = add_waiting t object_id g in
        after_search t found (record w { graph = some g' })
  ]

  abbrev pub slow_path : Option ℕ → Lock → Answer × Lock
  slow_path none w = (os_blocked, w)
  slow_path (some t) w = begin_wait t w

  unfoldable pub acquire : Option ℕ → Bool → Lock → Answer × Lock
  acquire ctx blocking w =
      if w.locked
      then (if blocking then slow_path ctx w else (not_acquired, w))
      else (acquired, take_lock ctx w)

  -- One round of the spin loop; `stopped` is `scheduler._finished or scheduler._error`.
  unfoldable pub spin : ℕ → Bool → Lock → Answer × Lock
  spin t stopped w =
      if w.locked
      then (if stopped
          then (os_blocked, on_graph (remove_waiting t object_id) w)
          else (spinning, w))
      else (
        acquired,
        report has_reporter lock_acquire
            (record (on_graph (add_holding t object_id)
              (on_graph (remove_waiting t object_id) (record w { locked = true }))) {
                owner_thread_id = some t;
              }),
      )

  -- An exception out of `wait_for_turn`: `except BaseException`
  unfoldable pub interrupt : ℕ → Lock → Lock
  interrupt t w = on_graph (remove_waiting t object_id) w

  -- The real `acquire` comes back with its result.
  unfoldable pub os_return : Option ℕ → Bool → Lock → Answer × Lock
  os_return ctx result w = if result then (acquired, take_lock ctx w) else (not_acquired, w)

  abbrev pub disown : Option ℕ → Lock → Lock
  disown none w = w
  disown (some t) w = on_graph (remove_holding t object_id) w

  -- False is the RuntimeError of releasing a lock that is not held.
  unfoldable pub release : Lock → Bool × Lock
  release w =
      let reported = report has_reporter lock_release (record w { owner_thread_id = none }) in
      if w.locked
      then (true, disown w.owner_thread_id (record reported { locked = false }))
      else (false, reported)
