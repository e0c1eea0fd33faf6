-- ===== src/WaitGraph.antt =====
-- frontrun/_deadlock.py: the wait-for graph and its search for a cycle.
-- A node is a thread or a lock. The adjacency dictionary `_edges` is an association list, and a set
-- of successors is a list, whose order stands for the order in which Python iterates the set.
pub mod Edges
pub mod Search
pub mod Cycles
pub mod Missed
mod Tests
use mathlib.Core.List.{reverse}
use frontrun.Prelude.{
  ℕ, zero, suc, ◌≡◌, ◌↔◌, Bool, true, false, Option, none, some, List, [], ◌∷◌, ◌++◌, arith, Eq,
  ◌==◌, if◌then◌else◌, contains, lookup, put, delete, add, discard, length, nat_beq,
}

-- `("thread", id)` or `("lock", id)`
pub data Node : Type 0 where
  thread : ℕ → Node
  lock : ℕ → Node

abbrev pub node_beq : Node → Node → Bool
node_beq (thread a) (thread b) = nat_beq a b
node_beq (lock a) (lock b) = nat_beq a b
node_beq _ _ = false

pub node_beq_iff : (a b : Node) → (node_beq a b ≡ true) ↔ (a ≡ b)
node_beq_iff (thread a) (thread b) = ground arith
node_beq_iff _ _ = ground arith

instance abbrev pub node_eq : Eq Node
node_eq = record { beq = node_beq; beq_iff = node_beq_iff }

abbrev pub Graph : Type 0
Graph = List (Node × List Node)

-- `self._edges.get(node, ())`
unfoldable pub succs : Graph → Node → List Node
succs g n = elim (lookup n g) [ none ↦ [] | some s ↦ s ]

abbrev pub has_edge : Graph → Node → Node → Bool
has_edge g a b = contains b (succs g a)

-- `self._edges.setdefault(src, set()).add(dst)`
unfoldable pub add_edge : Node → Node → Graph → Graph
add_edge src dst g = put src (add dst (succs g src)) g

-- `if not succs: del self._edges[src]`, on the successors that are left
unfoldable pub store : Node → List Node → Graph → Graph
store src [] g = delete src g
store src (x ∷ r) g = put src (x ∷ r) g

-- The successor is discarded, and a node without successors loses its entry.
unfoldable pub remove_edge : Node → Node → Graph → Graph
remove_edge src dst g = elim (lookup src g) [ none ↦ g | some s ↦ store src (discard dst s) g ]

-- The variables that `dfs` shares: the set `visited`, and the stack `path`, innermost node first.
pub record Walk : Type 0 where
  pub visited : List Node
  pub path : List Node

-- A call's result: whether the start was met again, and the variables after it. `none` means that
-- the fuel ran out.
abbrev pub Outcome : Type 0
Outcome = Option (Bool × Walk)

-- Goes on with the next neighbor if the call returned False.
abbrev pub resume : Outcome → (Walk → Outcome) → Outcome
resume none next = none
resume (some (true, w)) next = some (true, w)
resume (some (false, w)) next = next w

-- `for neighbor in …: if dfs(neighbor): return True`, and False at the end
unfoldable pub first_hit : (Node → Walk → Outcome) → List Node → Walk → Outcome
first_hit call [] w = some (false, w)
first_hit call (n ∷ ns) w = resume (call n w) (first_hit call ns)

abbrev pub enter : Node → Walk → Walk
enter n w = record { visited = n ∷ w.visited; path = n ∷ w.path }

abbrev pub pop_path : Walk → Walk
pop_path w = record w { path = elim w.path [ [] ↦ [] | x ∷ r ↦ r ] }

abbrev pub leave : Outcome → Outcome
leave none = none
leave (some (true, w)) = some (true, w)
leave (some (false, w)) = some (false, pop_path w)

-- The local function `dfs`. Its depth is bounded by fuel.
unfoldable pub dfs : Graph → Node → ℕ → Node → Walk → Outcome
dfs g start zero n w = none
dfs g start (suc fuel) n w = elim (contains n w.visited) [
  | true ↦ some (n == start, w)
  | false ↦ leave (first_hit (dfs g start fuel) (succs g n) (enter n w))
]

-- The nodes of the graph, with repetitions.
unfoldable pub nodes : Graph → List Node
nodes [] = []
nodes ((n, s) ∷ g) = n ∷ (s ++ nodes g)

abbrev pub start_walk : Walk
start_walk = record { visited = []; path = [] }

abbrev pub cycle_of : Node → Outcome → Option (Option (List Node))
cycle_of start none = none
cycle_of start (some (true, w)) = some (some (start ∷ reverse w.path))
cycle_of start (some (false, w)) = some none

-- The inner `none` is the source's None; the outer one, that the fuel ran out.
unfoldable pub find_cycle_from : Graph → Node → Option (Option (List Node))
find_cycle_from g start =
    cycle_of start (first_hit (dfs g start (suc (length (nodes g)))) (succs g start) start_walk)

unfoldable pub add_waiting : ℕ → ℕ → Graph → Graph × Option (Option (List Node))
add_waiting t l g = let g' = add_edge (thread t) (lock l) g in (g', find_cycle_from g' (thread t))

unfoldable pub remove_waiting : ℕ → ℕ → Graph → Graph
remove_waiting t l g = remove_edge (thread t) (lock l) g

unfoldable pub add_holding : ℕ → ℕ → Graph → Graph
add_holding t l g = add_edge (lock l) (thread t) g

unfoldable pub remove_holding : ℕ → ℕ → Graph → Graph
remove_holding t l g = remove_edge (lock l) (thread t) g

abbrev pub clear : Graph → Graph
clear g = []
