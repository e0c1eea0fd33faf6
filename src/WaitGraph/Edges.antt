-- ===== src/WaitGraph/Edges.antt =====
-- The graph as a relation: what each operation of `WaitForGraph` does to every edge.
use frontrun.Prelude.{
  ℕ, ◌≡◌, ◌&&◌, ◌||◌, not, List, [], ◌∷◌, arith, if◌then◌else◌, lookup, put, delete, add, discard,
  lookup-put, lookup-delete, contains-add, contains-discard, inl, inr, Option-cases,
}
use frontrun.WaitGraph.{
  Node, thread, lock, node_eq, node_beq, node_beq_iff, Graph, succs, has_edge, add_edge, store,
  remove_edge, add_waiting, remove_waiting, add_holding, remove_holding,
}

succs-put :
    (a b : Node) (s : List Node) (g : Graph)
    → succs (put a s g) b ≡ (if node_beq a b then s else succs g b)
unfolding succs
succs-put a b s g = ground (arith, lookup-put a b s g)

succs-delete :
    (a b : Node) (g : Graph) → succs (delete a g) b ≡ (if node_beq a b then [] else succs g b)
unfolding succs
succs-delete a b g = ground (arith, lookup-delete a b g)

succs-store :
    (a b : Node) (s : List Node) (g : Graph)
    → succs (store a s g) b ≡ (if node_beq a b then s else succs g b)
unfolding store
succs-store a b [] g = succs-delete a b g
succs-store a b (x ∷ s) g = succs-put a b (x ∷ s) g

-- The successors that are left: those of `s` without `d`, and the others' as they were.
succs-remove_edge :
    (s d b : Node) (g : Graph)
    → succs (remove_edge s d g) b ≡ (if node_beq s b then discard d (succs g b) else succs g b)
unfolding remove_edge
succs-remove_edge s d b g = elim (Option-cases (lookup s g)) [
  | inl e ↦ rw (e, remove_edge) (unfold succs discard in ground (arith, node_beq_iff s b))
  | inr (l, e) ↦
      rw (e, remove_edge)
        (unfold succs in ground (arith, node_beq_iff s b, succs-store s b (discard d l) g))
]

pub succs-add_edge :
    (s d b : Node) (g : Graph)
    → succs (add_edge s d g) b ≡ (if node_beq s b then add d (succs g s) else succs g b)
unfolding add_edge
succs-add_edge s d b g = succs-put s b (add d (succs g s)) g

-- Adding an edge adds that edge and no other.
pub has_edge-add_edge :
    (s d a b : Node) (g : Graph)
    → has_edge (add_edge s d g) a b ≡ ((node_beq s a && node_beq d b) || has_edge g a b)
unfolding add_edge
has_edge-add_edge s d a b g =
    ground
      (arith, succs-put s a (add d (succs g s)) g, contains-add d b (succs g s), node_beq_iff s a)

-- Removing an edge removes that edge and no other.
pub has_edge-remove_edge :
    (s d a b : Node) (g : Graph)
    → has_edge (remove_edge s d g) a b ≡ (not (node_beq s a && node_beq d b) && has_edge g a b)
has_edge-remove_edge s d a b g =
    ground (arith, succs-remove_edge s d a g, contains-discard d b (succs g a))

-- The four registrations as a relation: waiting edges go from threads to locks, holding edges
-- from locks to threads, and each call changes its own edge alone.
pub registrations_edges :
    (t l : ℕ) (a b : Node) (g : Graph)
    → (has_edge (add_waiting t l g).0 a b
        ≡ ((node_beq (thread t) a && node_beq (lock l) b) || has_edge g a b))
      × (has_edge (remove_waiting t l g) a b
          ≡ (not (node_beq (thread t) a && node_beq (lock l) b) && has_edge g a b))
      × (has_edge (add_holding t l g) a b
          ≡ ((node_beq (lock l) a && node_beq (thread t) b) || has_edge g a b))
      × (has_edge (remove_holding t l g) a b
          ≡ (not (node_beq (lock l) a && node_beq (thread t) b) && has_edge g a b))
unfolding add_waiting remove_waiting add_holding remove_holding
registrations_edges t l a b g = (
  has_edge-add_edge (thread t) (lock l) a b g,
  has_edge-remove_edge (thread t) (lock l) a b g,
  has_edge-add_edge (lock l) (thread t) a b g,
  has_edge-remove_edge (lock l) (thread t) a b g,
)
