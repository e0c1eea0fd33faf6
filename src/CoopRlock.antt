-- ===== src/CoopRlock.antt =====
-- frontrun/_cooperative.py, CooperativeRLock: the reentrant lock, cut into steps where CoopLock is.
pub mod System
pub mod Fields
pub mod Depth
mod Tests
use frontrun.Prelude.{
  ℕ, zero, suc, ◌+◌, ◌-◌, Bool, true, false, Option, none, some, List, [], ◌∷◌, ◌++◌, if◌then◌else◌,
  nat_beq,
}
use frontrun.WaitGraph.{Node, Graph, add_waiting, remove_waiting, add_holding, remove_holding}

pub data Event : Type 0 where
  lock_acquire lock_wait lock_release : Event

-- `locked` is the real lock; `owner` is an identifier of the system's, `owner_thread_id` the
-- scheduler's; `graph` is the installed wait-for graph, if any; `events` what was reported.
pub record Rlock : Type 0 where
  pub locked : Bool
  pub owner : Option ℕ
  pub count : ℕ
  pub owner_thread_id : Option ℕ
  pub graph : Option Graph
  pub events : List Event

abbrev pub new : Option Graph → Rlock
new g = record {
  locked = false;
  owner = none;
  count = 0;
  owner_thread_id = none;
  graph = g;
  events = [];
}

pub data Answer : Type 0 where
  acquired not_acquired os_blocked spinning aborted : Answer

abbrev pub is_owned : ℕ → Option ℕ → Bool
is_owned me none = false
is_owned me (some o) = nat_beq o me

unfoldable pub report : Bool → Event → Rlock → Rlock
report has_reporter e w = if has_reporter then record w { events = w.events ++ (e ∷ []) } else w

unfoldable pub on_graph : (Graph → Graph) → Rlock → Rlock
on_graph f w = elim w.graph [ none ↦ w | some g ↦ record w { graph = some (f g) } ]

-- The identity of the lock object, and whether threads report.
module _ (object_id : ℕ) (has_reporter : Bool) where
  abbrev pub own : Option ℕ → Rlock → Rlock
  own none w = w
  own (some t) w = on_graph (add_holding t object_id) (record w { owner_thread_id = some t })

  unfoldable pub set_owner_and_report : Option ℕ → Event → Rlock → Rlock
  set_owner_and_report ctx e w = report has_reporter e (own ctx w)

  -- The real lock has been taken: `self._owner = me`, `self._count = 1`, and the report.
  abbrev pub take_lock : ℕ → Option ℕ → Rlock → Rlock
  take_lock me ctx w =
      set_owner_and_report ctx lock_acquire (record w { locked = true; owner = some me; count = 1 })

  -- The answer of the cycle search; its inner `none` is None.
  abbrev pub after_search : ℕ → Option (Option (List Node)) → Rlock → Answer × Rlock
  after_search t (some (some cycle)) w = (aborted, on_graph (remove_waiting t object_id) w)
  after_search t _ w = (spinning, report has_reporter lock_wait w)

  abbrev pub wait_on : ℕ → Rlock → Option Graph → Answer × Rlock
  wait_on t w none = (spinning, report has_reporter lock_wait w)
  wait_on t w (some g) =
      let (g', found) = add_waiting t object_id g in
      after_search t found (record w { graph = some g' })

  abbrev pub slow_path : Option ℕ → Rlock → Answer × Rlock
  slow_path none w = (os_blocked, w)
  slow_path (some t) w = wait_on t w w.graph

  unfoldable pub acquire : ℕ → Option ℕ → Bool → Rlock → Answer × Rlock
  acquire me ctx blocking w =
      if is_owned me w.owner
      then (acquired, record w { count = w.count + 1 })
      else if w.locked
      then (if blocking then slow_path ctx w else (not_acquired, w))
      else (acquired, take_lock me ctx w)

  -- One round of the spin loop; `stopped` is `scheduler._finished or scheduler._error`.
  unfoldable pub spin : ℕ → ℕ → Bool → Rlock → Answer × Rlock
  spin me t stopped w =
      if w.locked
      then (if stopped
          then (os_blocked, on_graph (remove_waiting t object_id) w)
          else (spinning, w))
      else (
        acquired,
        report has_reporter lock_acquire
            (record (on_graph (add_holding t object_id)
              (on_graph (remove_waiting t object_id) (record w { locked = true }))) {
                owner = some me;
                owner_thread_id = some t;
                count = 1;
              }),
      )

  -- An exception out of `wait_for_turn`: `except BaseException`
  unfoldable pub interrupt : ℕ → Rlock → Rlock
  interrupt t w = on_graph (remove_waiting t object_id) w

  -- The real `acquire` comes back with its result.
  unfoldable pub os_return : ℕ → Option ℕ → Bool → Rlock → Answer × Rlock
  os_return me ctx result w = if result then (acquired, take_lock me ctx w) else (not_acquired, w)

  abbrev pub disown : Option ℕ → Rlock → Rlock
  disown none w = w
  disown (some t) w = on_graph (remove_holding t object_id) w

  -- The count has come to 0.
  abbrev pub let_go : Rlock → Rlock
  let_go w =
      disown w.owner_thread_id
        (record (report has_reporter lock_release
          (record w { owner = none; owner_thread_id = none })) { locked = false })

  -- `self._count -= 1`, and what follows if it is 0; an owner's count is positive.
  abbrev pub count_down : ℕ → Rlock → Rlock
  count_down zero w = w
  count_down (suc zero) w = let_go (record w { count = 0 })
  count_down (suc (suc n)) w = record w { count = suc n }

  -- False is the RuntimeError.
  unfoldable pub release : ℕ → Rlock → Bool × Rlock
  release me w = if is_owned me w.owner then (true, count_down w.count w) else (false, w)
