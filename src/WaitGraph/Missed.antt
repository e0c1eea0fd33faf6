-- ===== src/WaitGraph/Missed.antt =====
-- frontrun/_deadlock.py: cycles that the search misses. `visited` does not hold the start at first, so
-- the start is entered like any node.
use mathlib.Core.Path.{subst}
use frontrun.Prelude.{
  ℕ, zero, suc, ◌≤◌, ◌≡◌, refl, true, false, Option, none, some, List, [], ◌∷◌, arith, contains,
  length, Bool-cases, inl, inr, ==_refl, add,
}
use frontrun.WaitGraph.{
  Node, thread, lock, node_beq, node_beq_iff, node_eq, Graph, succs, has_edge, Walk, Outcome,
  resume, first_hit, enter, leave, dfs, nodes, start_walk, cycle_of, find_cycle_from, add_edge,
  add_waiting,
}
use frontrun.WaitGraph.Cycles.{IsWalk}
use frontrun.WaitGraph.Edges.{has_edge-add_edge, succs-add_edge}
use frontrun.WaitGraph.Search.{find_cycle_from-returns}

-- No call returns True.
abbrev Misses : Outcome → Type 0
Misses none = Unit
Misses (some (true, w)) = ⊥
Misses (some (false, w)) = Unit

-- Each node has at most one successor.
abbrev pub IsFunctional : Graph → Type 0
IsFunctional g = (n : Node) → length (succs g n) ≤ 1

only_one :
    (ns : List Node) (a b : Node)
    → length ns ≤ 1
    → contains a ns ≡ true
    → contains b ns ≡ true
    → contains a (b ∷ []) ≡ true
unfolding contains
only_one [] a b few ha hb = cc
only_one (x ∷ []) a b few ha hb =
    ground (arith, node_beq_iff x a, node_beq_iff x b, node_beq_iff b a)
only_one (x ∷ y ∷ ns) a b few ha hb = absurd (omega arith)

first_hit-Misses :
    (call : Node → Walk → Outcome) (ns : List Node) (w : Walk)
    → length ns ≤ 1
    → ((n : Node) → contains n ns ≡ true → Misses (call n w))
    → Misses (first_hit call ns w)
unfolding first_hit contains
first_hit-Misses call [] w few each = tt
first_hit-Misses call (n ∷ []) w few each = last (call n w) (each n (ground (arith, ==_refl n)))
  where
    last : (o : Outcome) → Misses o → Misses (resume o (λ w'. some (false, w')))
    last none h = tt
    last (some (true, w')) h = h
    last (some (false, w')) h = tt
first_hit-Misses call (n ∷ m ∷ ns) w few each = absurd (omega arith)

leave-Misses : (o : Outcome) → Misses o → Misses (leave o)
leave-Misses none h = tt
leave-Misses (some (true, w)) h = h
leave-Misses (some (false, w)) h = tt

-- A node that was visited and is not the start ends the call at once.
dfs-Misses_visited :
    (g : Graph) (start : Node) (fuel : ℕ) (n : Node) (w : Walk)
    → contains n w.visited ≡ true
    → node_beq n start ≡ false
    → Misses (dfs g start fuel n w)
unfolding dfs
dfs-Misses_visited g start zero n w old other = tt
dfs-Misses_visited g start (suc fuel) n w old other = rw (old, dfs) (rw other tt)

module _ (g : Graph) (start : Node) (single : IsFunctional g)
    (loopless : has_edge g start start ≡ false) where
  no_loop : (m : Node) → has_edge g start m ≡ true → node_beq m start ≡ false
  no_loop m edge = elim (Bool-cases (node_beq m start)) [
    | inl e ↦
        let back = subst (λ k. has_edge g start k ≡ true) ((node_beq_iff m start).0 e) edge in cc
    | inr e ↦ e
  ]

  -- While the start has not been entered and its successors have, no call returns True.
  dfs-Misses :
      (fuel : ℕ) (n : Node) (w : Walk)
      → contains start w.visited ≡ false
      → ((m : Node) → has_edge g start m ≡ true → contains m (n ∷ w.visited) ≡ true)
      → Misses (dfs g start fuel n w)
  unfolding dfs contains
  dfs-Misses zero n w fresh passed = tt
  dfs-Misses (suc fuel) n w fresh passed = elim (Bool-cases (contains n w.visited)) [
    | inl old ↦ dfs-Misses_visited g start (suc fuel) n w old (ground (arith, node_beq_iff n start))
    | inr new ↦
        rw (new, dfs)
          (leave-Misses _ (
            first_hit-Misses (dfs g start fuel) (succs g n) (enter n w) (single n)
              (elim (Bool-cases (node_beq n start)) [
                | inl same ↦ λ m q.
                    let edge =
                      subst (λ k. has_edge g k m ≡ true) ((node_beq_iff n start).0 same) q in
                    dfs-Misses_visited g start fuel m (enter n w) (passed m edge) (no_loop m edge)
                | inr other ↦ λ m q.
                    dfs-Misses fuel m (enter n w) (ground arith) (λ k h. ground (arith, passed k h))
              ])))
  ]

  find_cycle_from-misses : find_cycle_from g start ≡ some none
  unfolding find_cycle_from
  find_cycle_from-misses = go _ search (find_cycle_from-returns g start)
    where
      fuel : ℕ
      fuel = suc (length (nodes g))

      search : Misses (first_hit (dfs g start fuel) (succs g start) start_walk)
      search = first_hit-Misses (dfs g start fuel) (succs g start) start_walk (single start) (λ n q.
          dfs-Misses fuel n start_walk (unfold contains in refl)
            (λ m edge. only_one (succs g start) m n (single start) edge q))

      go :
          (o : Outcome)
          → Misses o
          → (r : Option (List Node)) × (cycle_of start o ≡ some r)
          → cycle_of start o ≡ some none
      go none h (r, e) = cc
      go (some (true, w)) h r = absurd h
      go (some (false, w)) h r = refl

IsWalk-add_edge :
    (s d a b : Node) (p : List Node) (g : Graph) → IsWalk g a p b → IsWalk (add_edge s d g) a p b
IsWalk-add_edge s d a b [] g h = ground (arith, has_edge-add_edge s d a b g)
IsWalk-add_edge s d a b (x ∷ p) g h =
    (ground (arith, has_edge-add_edge s d a x g), IsWalk-add_edge s d x b p g h.1)

-- In a graph whose nodes have at most one successor each, a thread that begins to wait is told
-- that there is no cycle, although the new edge closes one.
pub add_waiting-misses :
    (g : Graph) (t l : ℕ) (p : List Node)
    → IsFunctional g
    → succs g (thread t) ≡ []
    → IsWalk g (lock l) p (thread t)
    → IsWalk (add_waiting t l g).0 (thread t) (lock l ∷ p) (thread t)
      × ((add_waiting t l g).1 ≡ some none)
unfolding add_waiting
add_waiting-misses g t l p single idle back = (
  (
    ground (arith, has_edge-add_edge (thread t) (lock l) (thread t) (lock l) g),
    IsWalk-add_edge (thread t) (lock l) (lock l) (thread t) p g back,
  ),
  find_cycle_from-misses (add_edge (thread t) (lock l) g) (thread t) still_single (
      rw (has_edge-add_edge (thread t) (lock l) (thread t) (thread t) g)
        (rw idle (unfold contains in ground arith))),
)
  where
    still_single : IsFunctional (add_edge (thread t) (lock l) g)
    still_single n =
        unfold add in
        ground (arith, succs-add_edge (thread t) (lock l) n g, single n, node_beq_iff (thread t) n)
