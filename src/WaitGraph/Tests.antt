-- ===== src/WaitGraph/Tests.antt =====
-- Runs of the wait-for graph on small graphs, and the theorems at concrete inputs.
use frontrun.Prelude.{
  ◌≡◌, refl, true, false, Option, none, some, List, [], ◌∷◌, arith, lookup, put, add, contains,
  ◌&&◌, ◌||◌,
}
use frontrun.WaitGraph.{
  Node, thread, lock, Graph, succs, has_edge, add_waiting, remove_waiting, add_holding,
  remove_holding, find_cycle_from, add_edge, dfs, first_hit, nodes,
}
use frontrun.WaitGraph.Cycles.{IsWalk, find_cycle_from-IsWalk}
use frontrun.WaitGraph.Missed.{IsFunctional, add_waiting-misses}
use frontrun.WaitGraph.Search.{find_cycle_from-returns}
use frontrun.WaitGraph.Edges.{registrations_edges}

-- Thread 1 holds lock 1, thread 2 holds lock 2 and waits for lock 1.
abbrev held : Graph
held = (lock 1, thread 1 ∷ []) ∷ (lock 2, thread 2 ∷ []) ∷ (thread 2, lock 1 ∷ []) ∷ []

held_is_built : (add_waiting 2 1 (add_holding 2 2 (add_holding 1 1 []))).0 ≡ held
unfolding add_waiting add_holding add_edge succs lookup put add
held_is_built = refl

held-IsFunctional : IsFunctional held
unfolding succs lookup
held-IsFunctional n = ground arith

-- Thread 1 begins to wait for lock 2: a deadlock, and no cycle is reported.
add_waiting-misses_example :
    IsWalk (add_waiting 1 2 held).0 (thread 1) (lock 2 ∷ thread 2 ∷ lock 1 ∷ []) (thread 1)
    × ((add_waiting 1 2 held).1 ≡ some none)
unfolding succs lookup contains
add_waiting-misses_example =
    add_waiting-misses held 1 2 (thread 2 ∷ lock 1 ∷ []) held-IsFunctional refl (refl, (refl, refl))

-- A graph in which the start is reached a second time.
abbrev twice : Graph
twice =
    (lock 1, thread 1 ∷ thread 2 ∷ [])
    ∷ (thread 2, lock 2 ∷ [])
    ∷ (lock 2, thread 1 ∷ [])
    ∷ (thread 1, lock 1 ∷ [])
    ∷ []

abbrev reported : List Node
reported = thread 1 ∷ lock 1 ∷ thread 2 ∷ lock 2 ∷ []

twice-reported : find_cycle_from twice (thread 1) ≡ some (some reported)
unfolding find_cycle_from dfs first_hit nodes succs lookup contains
twice-reported = refl

find_cycle_from-IsWalk_example :
    (p : List Node) × (reported ≡ thread 1 ∷ p) × IsWalk twice (thread 1) p (thread 1)
find_cycle_from-IsWalk_example = find_cycle_from-IsWalk twice (thread 1) reported twice-reported

find_cycle_from-returns_example :
    (r : Option (List Node)) × (find_cycle_from twice (lock 2) ≡ some r)
find_cycle_from-returns_example = find_cycle_from-returns twice (lock 2)

registrations_edges_example :
    (has_edge (add_waiting 1 2 held).0 (thread 1) (lock 2)
      ≡ (true || has_edge held (thread 1) (lock 2)))
    × (has_edge (remove_waiting 1 2 held) (thread 1) (lock 2)
        ≡ (false && has_edge held (thread 1) (lock 2)))
    × (has_edge (add_holding 1 2 held) (thread 1) (lock 2)
        ≡ (false || has_edge held (thread 1) (lock 2)))
    × (has_edge (remove_holding 1 2 held) (thread 1) (lock 2)
        ≡ (true && has_edge held (thread 1) (lock 2)))
registrations_edges_example = registrations_edges 1 2 (thread 1) (lock 2) held
