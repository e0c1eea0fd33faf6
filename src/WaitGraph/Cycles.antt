-- ===== src/WaitGraph/Cycles.antt =====
-- frontrun/_deadlock.py: the cycle that the search reports, as a walk in the graph.
use mathlib.Core.Path.{subst}
use mathlib.Core.List.{reverse, reverse_aux}
use frontrun.Prelude.{
  ℕ, zero, suc, ◌≡◌, refl, Bool, true, false, none, some, List, [], ◌∷◌, arith, contains, length,
  Bool-cases, inl, inr, All, ==_refl, ap,
}
use frontrun.WaitGraph.{
  Node, node_beq, node_beq_iff, node_eq, Graph, succs, has_edge, Walk, Outcome, first_hit, enter,
  resume, leave, dfs, nodes, start_walk, cycle_of, find_cycle_from,
}

-- The edges lead from `a` over the nodes of the list to `b`.
abbrev pub IsWalk : Graph → Node → List Node → Node → Type 0
IsWalk g a [] b = has_edge g a b ≡ true
IsWalk g a (x ∷ xs) b = (has_edge g a x ≡ true) × IsWalk g x xs b

-- The same for the stack `path`, whose head is its last node.
abbrev top : Node → List Node → Node
top start [] = start
top start (x ∷ p) = x

abbrev IsTrail : Graph → Node → List Node → Type 0
IsTrail g start [] = Unit
IsTrail g start (x ∷ p) = (has_edge g (top start p) x ≡ true) × IsTrail g start p

-- What a call keeps: False leaves the stack as it was, True leaves a stack from which the start
-- is a successor.
abbrev Keeps : Graph → Node → List Node → Outcome → Type 0
Keeps g start p none = Unit
Keeps g start p (some (true, w)) =
    IsTrail g start w.path × (has_edge g (top start w.path) start ≡ true)
Keeps g start p (some (false, w)) = w.path ≡ p

abbrev AllSuccs : Graph → Node → List Node → Type 0
AllSuccs g a = All (λ n. has_edge g a n ≡ true)

All-succs :
    (g : Graph) (a : Node) (ns : List Node)
    → ((n : Node) → contains n ns ≡ true → has_edge g a n ≡ true)
    → AllSuccs g a ns
unfolding contains
All-succs g a [] h = tt
All-succs g a (n ∷ ns) h =
    (h n (ground (arith, ==_refl n)), All-succs g a ns (λ m q. h m (ground arith)))

resume-Keeps :
    (g : Graph) (start : Node) (p : List Node) (o : Outcome) (next : Walk → Outcome)
    → Keeps g start p o
    → ((w : Walk) → w.path ≡ p → Keeps g start p (next w))
    → Keeps g start p (resume o next)
resume-Keeps g start p none next h rest = tt
resume-Keeps g start p (some (true, w)) next h rest = h
resume-Keeps g start p (some (false, w)) next h rest = rest w h

leave-Keeps :
    (g : Graph) (start n : Node) (p : List Node) (o : Outcome)
    → Keeps g start (n ∷ p) o
    → Keeps g start p (leave o)
leave-Keeps g start n p none h = tt
leave-Keeps g start n p (some (true, w)) h = h
leave-Keeps g start n p (some (false, w)) h = ap (λ q. elim q [ [] ↦ [] | x ∷ r ↦ r ]) h

module _ (g : Graph) (start : Node) (call : Node → Walk → Outcome)
    (each : (n : Node) (w : Walk)
      → has_edge g (top start w.path) n ≡ true
      → IsTrail g start w.path
      → Keeps g start w.path (call n w)) where
  first_hit-Keeps :
      (ns : List Node) (p : List Node) (w : Walk)
      → w.path ≡ p
      → AllSuccs g (top start p) ns
      → IsTrail g start p
      → Keeps g start p (first_hit call ns w)
  unfolding first_hit
  first_hit-Keeps [] p w e next trail = e
  first_hit-Keeps (n ∷ ns) p w e next trail =
      resume-Keeps g start p (call n w) (first_hit call ns)
        (subst (λ q. Keeps g start q (call n w)) e (each n w (rw e next.0) (rw e trail)))
        (λ w' e'. first_hit-Keeps ns p w' e' next.1 trail)

dfs-Keeps :
    (g : Graph) (start : Node) (fuel : ℕ) (n : Node) (w : Walk)
    → has_edge g (top start w.path) n ≡ true
    → IsTrail g start w.path
    → Keeps g start w.path (dfs g start fuel n w)
unfolding dfs
dfs-Keeps g start zero n w edge trail = tt
dfs-Keeps g start (suc fuel) n w edge trail = elim (Bool-cases (contains n w.visited)) [
  | inl old ↦ rw (old, dfs) (met (node_beq n start) refl)
  | inr new ↦
      rw (new, dfs)
        (leave-Keeps g start n w.path _ (
          first_hit-Keeps g start (dfs g start fuel) (dfs-Keeps g start fuel) (succs g n)
            (n ∷ w.path) (enter n w) refl (All-succs g n (succs g n) (λ m q. q)) (edge, trail)))
]
  where
    met : (b : Bool) → node_beq n start ≡ b → Keeps g start w.path (some (b, w))
    met true e = (
      trail,
      subst (λ m. has_edge g (top start w.path) m ≡ true) ((node_beq_iff n start).0 e) edge,
    )
    met false e = refl

IsWalk-of_trail :
    (g : Graph) (start b : Node) (p q : List Node)
    → IsTrail g start p
    → IsWalk g (top start p) q b
    → IsWalk g start (reverse_aux p q) b
IsWalk-of_trail g start b [] q trail walk = walk
IsWalk-of_trail g start b (x ∷ p) q trail walk =
    IsWalk-of_trail g start b p (x ∷ q) trail.1 (trail.0, walk)

-- A reported cycle begins at the start and is a closed walk along edges of the graph.
pub find_cycle_from-IsWalk :
    (g : Graph) (start : Node) (c : List Node)
    → find_cycle_from g start ≡ some (some c)
    → (p : List Node) × (c ≡ start ∷ p) × IsWalk g start p start
unfolding find_cycle_from
find_cycle_from-IsWalk g start c found =
    go _
      (first_hit-Keeps g start (dfs g start fuel) (dfs-Keeps g start fuel) (succs g start) []
        start_walk refl (All-succs g start (succs g start) (λ m q. q)) tt)
      found
  where
    fuel : ℕ
    fuel = suc (length (nodes g))

    go :
        (o : Outcome)
        → Keeps g start [] o
        → cycle_of start o ≡ some (some c)
        → (p : List Node) × (c ≡ start ∷ p) × IsWalk g start p start
    go none k e = cc
    go (some (true, w)) k e = (reverse w.path, cc, IsWalk-of_trail g start start w.path [] k.0 k.1)
    go (some (false, w)) k e = cc
