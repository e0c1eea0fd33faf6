-- ===== src/WaitGraph/Search.antt =====
-- frontrun/_deadlock.py: the end of the search for a cycle, and the fuel for it.
use mathlib.Core.List.{reverse}
use frontrun.Prelude.{
  ℕ, zero, suc, ◌≤◌, ◌<◌, ◌≡◌, refl, Bool, true, false, Option, none, some, List, [], ◌∷◌, ◌++◌,
  arith, ◌==◌, if◌then◌else◌, ◌∙◌, contains, lookup, length, Bool-cases, inl, inr, All, ==_refl,
}
use frontrun.WaitGraph.{
  Node, node_beq, node_beq_iff, node_eq, Graph, succs, Walk, Outcome, first_hit, enter, pop_path,
  leave, dfs, nodes, start_walk, cycle_of, find_cycle_from,
}

-- How many entries of a list have not been visited.
unvisited : List Node → List Node → ℕ
unvisited seen [] = 0
unvisited seen (n ∷ ns) = if contains n seen then unvisited seen ns else suc (unvisited seen ns)

unvisited-le : (seen ns : List Node) → unvisited seen ns ≤ length ns
unfolding unvisited
unvisited-le seen [] = omega arith
unvisited-le seen (n ∷ ns) = ground (arith, unvisited-le seen ns)

-- Visiting a node never adds to the count, and lowers it where the node is new.
unvisited-cons-le : (a : Node) (seen ns : List Node) → unvisited (a ∷ seen) ns ≤ unvisited seen ns
unfolding unvisited contains
unvisited-cons-le a seen [] = omega arith
unvisited-cons-le a seen (n ∷ ns) = ground (arith, unvisited-cons-le a seen ns)

unvisited-cons-lt :
    (a : Node) (seen ns : List Node)
    → contains a seen ≡ false
    → contains a ns ≡ true
    → unvisited (a ∷ seen) ns < unvisited seen ns
unfolding unvisited contains
unvisited-cons-lt a seen [] new known = cc
unvisited-cons-lt a seen (n ∷ ns) new known = ground (
  arith,
  unvisited-cons-lt a seen ns,
  unvisited-cons-le a seen ns,
  node_beq_iff a n,
  node_beq_iff n a,
)

contains-append_right :
    (a : Node) (xs ys : List Node) → contains a ys ≡ true → contains a (xs ++ ys) ≡ true
unfolding contains
contains-append_right a [] ys h = h
contains-append_right a (x ∷ xs) ys h = ground (arith, contains-append_right a xs ys h)

contains-append_left :
    (a : Node) (xs ys : List Node) → contains a xs ≡ true → contains a (xs ++ ys) ≡ true
unfolding contains
contains-append_left a [] ys h = cc
contains-append_left a (x ∷ xs) ys h = ground (arith, contains-append_left a xs ys)

succs-cons :
    (n a : Node) (s : List Node) (g : Graph)
    → succs ((n, s) ∷ g) a ≡ (if node_beq n a then s else succs g a)
unfolding succs lookup
succs-cons n a s g = ground arith

-- A successor is a node of the graph.
succs-nodes : (g : Graph) (a b : Node) → contains b (succs g a) ≡ true → contains b (nodes g) ≡ true
unfolding contains nodes
succs-nodes [] a b h = unfold succs lookup in h
succs-nodes ((n, s) ∷ g) a b h = elim (Bool-cases (node_beq n a)) [
  | inl e ↦ ground (arith, succs-cons n a s g, contains-append_left b s (nodes g))
  | inr e ↦
      ground (arith, succs-cons n a s g, succs-nodes g a b, contains-append_right b s (nodes g))
]

-- A call that ends, and forgets no node that was visited.
abbrev Returns : Graph → Walk → Outcome → Type 0
Returns g w o =
    (hit : Bool) × (w' : Walk) × (o ≡ some (hit, w'))
    × (unvisited w'.visited (nodes g) ≤ unvisited w.visited (nodes g))

abbrev AllNodes : Graph → List Node → Type 0
AllNodes g = All (λ n. contains n (nodes g) ≡ true)

first_hit-hit :
    (call : Node → Walk → Outcome) (n : Node) (ns : List Node) (w w' : Walk)
    → call n w ≡ some (true, w')
    → first_hit call (n ∷ ns) w ≡ some (true, w')
unfolding first_hit
first_hit-hit call n ns w w' e = ground arith

pub first_hit-miss :
    (call : Node → Walk → Outcome) (n : Node) (ns : List Node) (w w' : Walk)
    → call n w ≡ some (false, w')
    → first_hit call (n ∷ ns) w ≡ first_hit call ns w'
unfolding first_hit
first_hit-miss call n ns w w' e = ground arith

module _ (g : Graph) (bound : ℕ) (call : Node → Walk → Outcome)
    (each : (n : Node) (w : Walk)
      → contains n (nodes g) ≡ true
      → unvisited w.visited (nodes g) < bound
      → Returns g w (call n w)) where
  first_hit-Returns :
      (ns : List Node) (w : Walk)
      → AllNodes g ns
      → unvisited w.visited (nodes g) < bound
      → Returns g w (first_hit call ns w)
  unfolding first_hit
  first_hit-Returns [] w known small = (false, w, refl, omega arith)
  first_hit-Returns (n ∷ ns) w known small =
      go (each n w known.0 small) (λ w'. first_hit-Returns ns w' known.1)
    where
      go :
          Returns g w (call n w)
          → ((w' : Walk)
              → unvisited w'.visited (nodes g) < bound
              → Returns g w' (first_hit call ns w'))
          → Returns g w (first_hit call (n ∷ ns) w)
      go (true, w', e, le) rest = (true, w', first_hit-hit call n ns w w' e, le)
      go (false, w', e, le) rest =
          let (hit, w'', e', le') = rest w' (omega arith) in
          (hit, w'', first_hit-miss call n ns w w' e ∙ e', omega arith)

All-contains :
    (g : Graph) (a : Node) (ns : List Node)
    → ((n : Node) → contains n ns ≡ true → contains n (succs g a) ≡ true)
    → AllNodes g ns
unfolding contains
All-contains g a [] h = tt
All-contains g a (n ∷ ns) h = (
  succs-nodes g a n (h n (ground (arith, ==_refl n))),
  All-contains g a ns (λ m q. h m (ground arith)),
)

succs-AllNodes : (g : Graph) (a : Node) → AllNodes g (succs g a)
succs-AllNodes g a = All-contains g a (succs g a) (λ n q. q)

leave-Returns :
    (g : Graph) (w w' : Walk) (o : Outcome)
    → Returns g w' o
    → unvisited w'.visited (nodes g) ≤ unvisited w.visited (nodes g)
    → Returns g w (leave o)
leave-Returns g w w' o (true, w'', e, le) h = (true, w'', rw e, omega arith)
leave-Returns g w w' o (false, w'', e, le) h = (false, pop_path w'', rw e, omega arith)

-- A call of `dfs` ends when its fuel exceeds the number of nodes not yet visited.
dfs-Returns :
    (g : Graph) (start : Node) (fuel : ℕ) (n : Node) (w : Walk)
    → contains n (nodes g) ≡ true
    → unvisited w.visited (nodes g) < fuel
    → Returns g w (dfs g start fuel n w)
unfolding dfs
dfs-Returns g start zero n w known small = absurd (omega arith)
dfs-Returns g start (suc fuel) n w known small = elim (Bool-cases (contains n w.visited)) [
  | inl old ↦ (n == start, w, rw (old, dfs), omega arith)
  | inr new ↦
      rw (new, dfs)
        (leave-Returns g w (enter n w) _
          (first_hit-Returns g fuel (dfs g start fuel) (dfs-Returns g start fuel) (succs g n)
            (enter n w) (succs-AllNodes g n)
            (omega (arith, unvisited-cons-lt n w.visited (nodes g) new known)))
          (unvisited-cons-le n w.visited (nodes g)))
]

-- The search from any node of any graph ends: the fuel never runs out.
pub find_cycle_from-returns :
    (g : Graph) (start : Node) → (r : Option (List Node)) × (find_cycle_from g start ≡ some r)
unfolding find_cycle_from
find_cycle_from-returns g start = go (
    first_hit-Returns g (suc (length (nodes g))) (dfs g start (suc (length (nodes g))))
      (dfs-Returns g start _) (succs g start) start_walk (succs-AllNodes g start)
      (omega (arith, unvisited-le [] (nodes g))))
  where
    go :
        {o : Outcome}
        → Returns g start_walk o
        → (r : Option (List Node)) × (cycle_of start o ≡ some r)
    go (true, w, e, _) = (some (start ∷ reverse w.path), rw e)
    go (false, w, e, _) = (none, rw e)
