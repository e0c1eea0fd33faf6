-- ===== src/Trace/Conflicts.antt =====
-- frontrun/_trace_format.py, `_find_conflicting_keys`: the keys found, and the accesses.
use mathlib.Core.List.{map}
use frontrun.Prelude.{
  ℕ, ◌≤◌, ◌≡◌, refl, sym, ap, ◌∙◌, Bool, true, false, ◌&&◌, ◌||◌, not, Option, none, some, List, [],
  ◌∷◌, ◌==◌, nat_eq, if◌then◌else◌, ltb, length, keep, contains, lookup, put, add, lookup-put,
  contains-add, arith, Bool-cases, inl, inr,
}
use frontrun.Trace.{SourceLineEvent, Key, key_eq, key_beq, key_beq_iff}
use frontrun.Trace.Condense.{
  key_of, writes, Tally, threads_at, tally, count_event, is_conflict, find_conflicting_keys,
}

-- The threads of the events at a key, in order.
abbrev pub threads_of : Key → List SourceLineEvent → List ℕ
threads_of k [] = []
threads_of k (e ∷ es) = if key_of e == k then e.thread_id ∷ threads_of k es else threads_of k es

abbrev pub written : Key → List SourceLineEvent → Bool
written k [] = false
written k (e ∷ es) = (key_of e == k && writes e.access_type) || written k es

abbrev pub has_other : ℕ → List ℕ → Bool
has_other t [] = false
has_other t (u ∷ us) = not (u == t) || has_other t us

-- Two of the threads are different.
abbrev pub two_threads : List ℕ → Bool
two_threads [] = false
two_threads (t ∷ ts) = has_other t ts

add_all : List ℕ → List ℕ → List ℕ
add_all [] s = s
add_all (t ∷ ts) s = add_all ts (add t s)

length-add : (t : ℕ) (s : List ℕ) → length s ≤ length (add t s)
unfolding add
length-add t [] = omega arith
length-add t (x ∷ s) = ground (arith, length-add t s)

length-add_all : (ts s : List ℕ) → length s ≤ length (add_all ts s)
unfolding add_all
length-add_all [] s = omega arith
length-add_all (t ∷ ts) s = omega (arith, length-add t s, length-add_all ts (add t s))

two_of_add_all : (t : ℕ) (ts : List ℕ) → ltb 1 (length (add_all ts (t ∷ []))) ≡ has_other t ts
unfolding add_all add
two_of_add_all t [] = ground arith
two_of_add_all t (u ∷ us) = ground (arith, two_of_add_all t us, length-add_all us (t ∷ u ∷ []))

abbrev fresh : Tally
fresh = record { key_threads = []; key_has_write = [] }

two_threads-add_all : (ts : List ℕ) → ltb 1 (length (add_all ts [])) ≡ two_threads ts
unfolding add_all add
two_threads-add_all [] = ground arith
two_threads-add_all (t ∷ ts) = two_of_add_all t ts

threads_at-count :
    (k : Key) (e : SourceLineEvent) (d : List (Key × List ℕ))
    → threads_at k (put (key_of e) (add e.thread_id (threads_at (key_of e) d)) d)
      ≡ (if key_of e == k then add e.thread_id (threads_at k d) else threads_at k d)
threads_at-count k e d = elim (Bool-cases (key_beq (key_of e) k)) [
  | inl same ↦
      looked
      ∙ rw same (ap (λ j. add e.thread_id (threads_at j d)) ((key_beq_iff (key_of e) k).0 same))
  | inr new ↦ looked ∙ rw new
]
  where
    looked :
        threads_at k (put (key_of e) (add e.thread_id (threads_at (key_of e) d)) d)
        ≡ elim (if key_of e == k
            then some (add e.thread_id (threads_at (key_of e) d))
            else lookup k d) [ none ↦ [] | some tids ↦ tids ]
    looked =
        ap (λ o. elim o [ none ↦ [] | some tids ↦ tids ])
          (lookup-put (key_of e) k (add e.thread_id (threads_at (key_of e) d)) d)

threads-tally :
    (k : Key) (es : List SourceLineEvent) (t : Tally)
    → threads_at k (tally es t).key_threads ≡ add_all (threads_of k es) (threads_at k t.key_threads)
unfolding tally add_all
threads-tally k [] t = refl
threads-tally k (e ∷ es) t =
    threads-tally k es (count_event e t)
    ∙ ap (add_all (threads_of k es)) (threads_at-count k e t.key_threads)
    ∙ counted (key_beq (key_of e) k)
  where
    counted :
        (b : Bool)
        → add_all
            (threads_of k es)
            (if b then add e.thread_id (threads_at k t.key_threads) else threads_at k t.key_threads)
          ≡ add_all
              (if b then e.thread_id ∷ threads_of k es else threads_of k es)
              (threads_at k t.key_threads)
    counted true = refl
    counted false = refl

writes-tally :
    (k : Key) (es : List SourceLineEvent) (t : Tally)
    → contains k (tally es t).key_has_write ≡ (contains k t.key_has_write || written k es)
unfolding tally
writes-tally k [] t = ground arith
writes-tally k (e ∷ es) t =
    ground (arith, writes-tally k es (count_event e t), contains-add (key_of e) k t.key_has_write)

-- No key stands twice in the dictionary.
abbrev IsUnique : List (Key × List ℕ) → Type 0
IsUnique [] = Unit
IsUnique ((k, v) ∷ d) = (lookup k d ≡ none) × IsUnique d

put-IsUnique : (k : Key) (v : List ℕ) (d : List (Key × List ℕ)) → IsUnique d → IsUnique (put k v d)
unfolding put lookup
put-IsUnique k v [] u = ground arith
put-IsUnique k v ((j, w) ∷ d) u =
    ground (arith, put-IsUnique k v d u.1, lookup-put k j v d, key_beq_iff j k, key_beq_iff k j)

tally-IsUnique :
    (es : List SourceLineEvent) (t : Tally)
    → IsUnique t.key_threads
    → IsUnique (tally es t).key_threads
unfolding tally
tally-IsUnique [] t u = u
tally-IsUnique (e ∷ es) t u = tally-IsUnique es _ (put-IsUnique (key_of e) _ t.key_threads u)

members :
    (q : Key × List ℕ → Bool) (k : Key) (d : List (Key × List ℕ))
    → IsUnique d
    → contains k (map (λ entry. entry.0) (keep q d))
      ≡ elim (lookup k d) [ none ↦ false | some v ↦ q (k, v) ]
unfolding contains lookup
members q k [] u = refl
members q k ((j, v) ∷ d) u = ground (arith, members q k d u.1, missing, moved)
  where
    missing : key_beq j k ≡ true → lookup k d ≡ none
    missing e = ap (λ i. lookup i d) (sym ((key_beq_iff j k).0 e)) ∙ u.0

    moved : key_beq j k ≡ true → q (k, v) ≡ q (j, v)
    moved e = ap (λ i. q (i, v)) (sym ((key_beq_iff j k).0 e))

by_threads :
    (o : Option (List ℕ)) (b : Bool)
    → elim o [ none ↦ false | some v ↦ ltb 1 (length v) && b ]
      ≡ (ltb 1 (length (elim o [ none ↦ [] | some tids ↦ tids ])) && b)
by_threads none b = ground arith
by_threads (some v) b = refl

-- A key is found exactly if two different threads have events at it and one event writes it.
pub find_conflicting_keys_iff :
    (k : Key) (es : List SourceLineEvent)
    → contains k (find_conflicting_keys es) ≡ (two_threads (threads_of k es) && written k es)
unfolding find_conflicting_keys lookup contains
find_conflicting_keys_iff k es =
    members (is_conflict t) k t.key_threads (tally-IsUnique es fresh tt)
    ∙ by_threads (lookup k t.key_threads) (contains k t.key_has_write)
    ∙ ap (λ ts. ltb 1 (length ts) && contains k t.key_has_write) (threads-tally k es fresh)
    ∙ ap (λ b. b && contains k t.key_has_write) (two_threads-add_all (threads_of k es))
    ∙ ap (λ b. two_threads (threads_of k es) && b) (writes-tally k es fresh)
  where
    t : Tally
    t = tally es fresh
