-- ===== src/CoopLock/Tests.antt =====
-- Two threads on one cooperative lock.
use frontrun.Prelude.{
  ℕ, ◌≡◌, refl, arith, true, false, none, some, [], is_some, lookup, put, add, contains,
}
use frontrun.WaitGraph.{
  Node, thread, lock, has_edge, add_waiting, add_holding, find_cycle_from, first_hit, succs,
  add_edge, dfs, nodes,
}
use frontrun.CoopLock.{Lock, acquire, begin_wait, set_owner_and_report, report}
use frontrun.CoopLock.System.{Phase, outside, phase_of, update, edge, call, Reach, start, later}
use frontrun.CoopLock.Edits.{owns, is_looping}
use frontrun.CoopLock.Mirror.{Reach-Mirror}

abbrev fresh : Lock
fresh = record { locked = false; owner_thread_id = none; graph = some []; events = [] }

-- Thread 1 takes the lock 7, and thread 2 begins to wait for it.
abbrev held : Lock
held = (acquire 7 true (some 1) true fresh).1

abbrev waited : Lock
waited = (acquire 7 true (some 2) true held).1

abbrev phases : ℕ → Phase
phases =
    update (update (λ t. outside) 1 (phase_of (acquire 7 true (some 1) true fresh).0)) 2
      (phase_of (acquire 7 true (some 2) true held).0)

no_edges : (a b : Node) → has_edge [] a b ≡ false
unfolding succs lookup contains
no_edges a b = refl

two_calls : Reach 7 true waited phases
two_calls =
    later (later (start [] (λ t. (no_edges _ _, no_edges _ _))) (call 1 true refl))
      (call 2 true (ground arith))

Reach-Mirror_example :
    (waited.locked ≡ is_some waited.owner_thread_id)
    × ((t : ℕ)
        → (edge waited (lock 7) (thread t) ≡ owns waited.owner_thread_id t)
          × (edge waited (thread t) (lock 7) ≡ is_looping (phases t)))
Reach-Mirror_example = Reach-Mirror two_calls

-- Thread 1 has the lock, and thread 2 is in its loop.
waited_owner : waited.owner_thread_id ≡ some 1
unfolding acquire begin_wait set_owner_and_report report add_waiting add_holding find_cycle_from
    first_hit succs lookup add_edge put add dfs contains nodes
waited_owner = refl
