-- ===== src/Trace/Grouped.antt =====
-- frontrun/_trace_format.py, `classify_conflict`: the accesses by attribute.
use frontrun.Prelude.{
  ◌≡◌, refl, sym, ap, ◌∙◌, true, false, Option, none, some, List, [], ◌∷◌, ◌++◌, String, string_eq,
  ◌==◌, if◌then◌else◌, lookup, put, lookup-put, All, arith, Bool-cases, inl, inr,
}
use mathlib.Core.List.{append_assoc, append-nil}
use frontrun.Trace.{SourceLineEvent}
use frontrun.Trace.Classify.{attr_key, kind_of, Accesses, accesses_at, add_access, attr_accesses}

-- The accesses of an attribute, in order.
abbrev pub accesses_of : String → List SourceLineEvent → Accesses
accesses_of k [] = []
accesses_of k (e ∷ es) =
    if attr_key e.attr_name == k
    then (e.thread_id, kind_of e.access_type) ∷ accesses_of k es
    else accesses_of k es

abbrev Groups : Type 0
Groups = List (String × Accesses)

IsDistinct : Groups → Type 0
IsDistinct [] = Unit
IsDistinct ((k, xs) ∷ m) = (lookup k m ≡ none) × IsDistinct m

put-IsDistinct : (k : String) (xs : Accesses) (m : Groups) → IsDistinct m → IsDistinct (put k xs m)
unfolding put IsDistinct lookup
put-IsDistinct k xs [] h = (refl, tt)
put-IsDistinct k xs ((j, ys) ∷ m) h = elim (Bool-cases (j == k)) [
  | inl e ↦ rw e h
  | inr e ↦ rw e (
    lookup-put k j xs m ∙ ap (λ b. if b then some xs else lookup j m) (other e) ∙ h.0,
    put-IsDistinct k xs m h.1,
  )
]
  where
    other : (j == k) ≡ false → (k == j) ≡ false
    other e = ground (arith, e, string_eq.beq_iff j k, string_eq.beq_iff k j)

-- What a group of the dictionary says, read after another entry was put before it.
none-some :
    {xs : Accesses} (k i : String) (m : Groups)
    → lookup k m ≡ none
    → lookup i m ≡ some xs
    → (k == i) ≡ false
none-some k i m miss hit = elim (Bool-cases (k == i)) [
  | inl e ↦ absurd (cc (miss, hit, ap (λ j. lookup j m) ((string_eq.beq_iff k i).0 e)))
  | inr e ↦ e
]

shifted :
    (k : String) (ys : Accesses) (m xs : Groups)
    → lookup k m ≡ none
    → All (λ g. lookup g.0 m ≡ some g.1) xs
    → All (λ g. lookup g.0 ((k, ys) ∷ m) ≡ some g.1) xs
unfolding lookup
shifted k ys m [] miss h = tt
shifted k ys m ((i, zs) ∷ xs) miss h = (
  ap (λ b. if b then some ys else lookup i m) (none-some k i m miss h.0) ∙ h.0,
  shifted k ys m xs miss h.1,
)

found-All : (m : Groups) → IsDistinct m → All (λ g. lookup g.0 m ≡ some g.1) m
unfolding IsDistinct lookup
found-All [] h = tt
found-All ((k, xs) ∷ m) h = (
  ap (λ b. if b then some xs else lookup k m) ((string_eq.beq_iff k k).1 refl),
  shifted k xs m m h.0 (found-All m h.1),
)

at_option : Option Accesses → Accesses
at_option o = elim o [ none ↦ [] | some xs ↦ xs ]

attr_accesses-groups :
    (k : String) (es : List SourceLineEvent) (m : Groups)
    → accesses_at k (attr_accesses es m) ≡ accesses_at k m ++ accesses_of k es
unfolding attr_accesses at_option
attr_accesses-groups k [] m = sym (append-nil (accesses_at k m))
attr_accesses-groups k (e ∷ es) m =
    attr_accesses-groups k es (add_access e m) ∙ elim (Bool-cases (attr_key e.attr_name == k)) [
      | inl h ↦ rw h (
          ap (λ xs. xs ++ accesses_of k es) (added h)
          ∙ append_assoc (accesses_at k m) ((e.thread_id, kind_of e.access_type) ∷ [])
              (accesses_of k es))
      | inr h ↦ rw h (ap (λ xs. xs ++ accesses_of k es) (kept h))
    ]
  where
    now : Accesses
    now = accesses_at (attr_key e.attr_name) m ++ ((e.thread_id, kind_of e.access_type) ∷ [])

    kept : (attr_key e.attr_name == k) ≡ false → accesses_at k (add_access e m) ≡ accesses_at k m
    kept h =
        ap at_option (
          lookup-put (attr_key e.attr_name) k now m
          ∙ ap (λ b. if b then some now else lookup k m) h)

    added :
        (attr_key e.attr_name == k) ≡ true
        → accesses_at k (add_access e m)
          ≡ accesses_at k m ++ ((e.thread_id, kind_of e.access_type) ∷ [])
    added h =
        ap at_option (
          lookup-put (attr_key e.attr_name) k now m
          ∙ ap (λ b. if b then some now else lookup k m) h)
        ∙ ap (λ j. accesses_at j m ++ ((e.thread_id, kind_of e.access_type) ∷ []))
            ((string_eq.beq_iff (attr_key e.attr_name) k).0 h)

attr_accesses-IsDistinct :
    (es : List SourceLineEvent) (m : Groups) → IsDistinct m → IsDistinct (attr_accesses es m)
unfolding attr_accesses
attr_accesses-IsDistinct [] m h = h
attr_accesses-IsDistinct (e ∷ es) m h =
    attr_accesses-IsDistinct es (add_access e m) (put-IsDistinct _ _ m h)

-- Each group of the dictionary is the accesses of its attribute.
pub attr_accesses-All :
    (es : List SourceLineEvent) → All (λ g. accesses_of g.0 es ≡ g.1) (attr_accesses es [])
unfolding IsDistinct lookup at_option
attr_accesses-All es =
    by (attr_accesses es []) (found-All (attr_accesses es []) (attr_accesses-IsDistinct es [] tt))
  where
    by :
        (xs : Groups)
        → All (λ g. lookup g.0 (attr_accesses es []) ≡ some g.1) xs
        → All (λ g. accesses_of g.0 es ≡ g.1) xs
    by [] h = tt
    by ((k, ys) ∷ xs) h = (sym (attr_accesses-groups k es []) ∙ ap at_option h.0, by xs h.1)
