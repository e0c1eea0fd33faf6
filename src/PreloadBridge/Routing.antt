-- ===== src/PreloadBridge/Routing.antt =====
-- frontrun/dpor.py, _PreloadBridge: the events of a thread, from the pipe to its drains.
use mathlib.Core.List.{append_assoc, append-nil}
use native.Mathlib.Omega.{arith}
use frontrun.Prelude.{
  ℕ, ◌≡◌, refl, sym, ap, ◌∙◌, Bool, true, false, not, Option, none, some, List, [], ◌∷◌, ◌++◌,
  String, string_eq, nat_eq, nat_beq, nat_beq_iff, ◌==◌, if◌then◌else◌, lookup, lookup-put,
  Bool-cases, inl, inr,
}
use frontrun.PreloadBridge.{
  IoEvent, Entry, Bridge, entries, pending_at, is_empty, register_thread, unregister_thread, clear,
  entry_of, buffer, listener, poll, take_pending, drain,
}
use frontrun.PreloadBridge.Threads.{
  IsActive, no_thread, off_is_empty, register-pending, unregister-pending, register-IsActive,
  unregister-IsActive,
}

-- What a thread's events are, by the registrations at the time when each came; closing is none.
module _ (object_key : String → ℕ) where
  abbrev pub to_thread : ℕ → IoEvent → Option ℕ → List Entry
  to_thread k e none = []
  to_thread k e (some d) = if nat_beq d k then entry_of object_key e ∷ [] else []

  abbrev pub share : ℕ → IoEvent → List (ℕ × ℕ) → List Entry
  share k e m = if e.kind == "close" then [] else to_thread k e (lookup e.tid m)

  abbrev pub shares : ℕ → List IoEvent → List (ℕ × ℕ) → List Entry
  shares k [] m = []
  shares k (e ∷ es) m = share k e m ++ shares k es m

  abbrev pub drained_by : ℕ → ℕ → List Entry → List Entry
  drained_by k d es = if nat_beq d k then es else []

  -- Runs of one execution, with each thread's events and what it has drained.
  pub data Run : Bridge → (ℕ → List Entry) → (ℕ → List Entry) → Type 0 where
    start : (b : Bridge) → Run (clear b) (λ k. []) (λ k. [])
    register :
        {b : Bridge} {came got : ℕ → List Entry} (os_tid dpor_id : ℕ)
        → Run b came got
        → Run (register_thread os_tid dpor_id b) came got
    unregister :
        {b : Bridge} {came got : ℕ → List Entry} (os_tid : ℕ)
        → Run b came got
        → Run (unregister_thread os_tid b) came got
    event :
        {b : Bridge} {came got : ℕ → List Entry} (e : IoEvent)
        → Run b came got
        → Run (listener object_key e b) (λ k. came k ++ share k e b.tid_to_dpor) got
    take_all :
        {b : Bridge} {came got : ℕ → List Entry} (flushed : List IoEvent) (d : ℕ)
        → Run b came got
        → Run
            (drain object_key flushed d b).1
            (λ k. came k ++ shares k flushed b.tid_to_dpor)
            (λ k. got k ++ drained_by k d (drain object_key flushed d b).0)

  buffer-pending :
      (k : ℕ) (e : IoEvent) (b : Bridge) (o : Option ℕ)
      → pending_at k (buffer object_key e b o) ≡ pending_at k b ++ to_thread k e o
  buffer-pending k e b none = sym (append-nil (pending_at k b))
  buffer-pending k e b (some d) =
      ap entries (lookup-put d k (pending_at d b ++ (entry_of object_key e ∷ [])) b.pending)
      ∙ elim (Bool-cases (nat_beq d k)) [
        | inl same ↦
            rw same
              (ap (λ j. pending_at j b ++ (entry_of object_key e ∷ [])) ((nat_beq_iff d k).0 same))
        | inr other ↦ rw other (sym (append-nil (pending_at k b)))
      ]

  listener-pending :
      (k : ℕ) (e : IoEvent) (b : Bridge)
      → IsActive b
      → pending_at k (listener object_key e b) ≡ pending_at k b ++ share k e b.tid_to_dpor
  unfolding listener
  listener-pending k e b a =
      by b.active (e.kind == "close") (lookup e.tid b.tid_to_dpor)
        (λ off. no_thread b.tid_to_dpor e.tid (off_is_empty b a off))
    where
      by :
          (on closing : Bool) (o : Option ℕ)
          → (on ≡ false → o ≡ none)
          → pending_at k (if on then (if closing then b else buffer object_key e b o) else b)
            ≡ pending_at k b ++ (if closing then [] else to_thread k e o)
      by true true o h = sym (append-nil (pending_at k b))
      by true false o h = buffer-pending k e b o
      by false true o h = sym (append-nil (pending_at k b))
      by false false none h = sym (append-nil (pending_at k b))
      by false false (some d) h = absurd (ground (arith, h refl))

  buffer-kept :
      (e : IoEvent) (b : Bridge) (o : Option ℕ)
      → ((buffer object_key e b o).tid_to_dpor ≡ b.tid_to_dpor)
        × ((buffer object_key e b o).active ≡ b.active)
  buffer-kept e b none = (refl, refl)
  buffer-kept e b (some d) = (refl, refl)

  listener-kept :
      (e : IoEvent) (b : Bridge)
      → ((listener object_key e b).tid_to_dpor ≡ b.tid_to_dpor)
        × ((listener object_key e b).active ≡ b.active)
  unfolding listener
  listener-kept e b = by b.active (e.kind == "close")
    where
      by :
          (on closing : Bool)
          → let b' : Bridge =
              if on
              then (if closing then b else buffer object_key e b (lookup e.tid b.tid_to_dpor))
              else b in
            (b'.tid_to_dpor ≡ b.tid_to_dpor) × (b'.active ≡ b.active)
      by true true = (refl, refl)
      by true false = buffer-kept e b (lookup e.tid b.tid_to_dpor)
      by false closing = (refl, refl)

  listener-IsActive : (e : IoEvent) (b : Bridge) → IsActive b → IsActive (listener object_key e b)
  listener-IsActive e b a =
      (listener-kept e b).1 ∙ a ∙ ap (λ m. not (is_empty m)) (sym (listener-kept e b).0)

  poll-pending :
      (k : ℕ) (es : List IoEvent) (b : Bridge)
      → IsActive b
      → (pending_at k (poll object_key es b) ≡ pending_at k b ++ shares k es b.tid_to_dpor)
        × IsActive (poll object_key es b)
  unfolding poll
  poll-pending k [] b a = (sym (append-nil (pending_at k b)), a)
  poll-pending k (e ∷ es) b a =
      let (p, q) = poll-pending k es (listener object_key e b) (listener-IsActive e b a) in
      (
        p
            ∙ ap (λ m. pending_at k (listener object_key e b) ++ shares k es m)
                (listener-kept e b).0
            ∙ ap (λ l. l ++ shares k es b.tid_to_dpor) (listener-pending k e b a)
            ∙ append_assoc (pending_at k b) (share k e b.tid_to_dpor) (shares k es b.tid_to_dpor),
        q,
      )

  nothing : (k d : ℕ) (es : List Entry) → drained_by k d [] ++ es ≡ es
  nothing k d es = elim (Bool-cases (nat_beq d k)) [ inl same ↦ rw same | inr other ↦ rw other ]

  take-pending :
      (k d : ℕ) (b : Bridge) (o : Option (List Entry))
      → lookup d b.pending ≡ o
      → (drained_by k d (take_pending object_key d b o).0
            ++ pending_at k (take_pending object_key d b o).1
          ≡ pending_at k b)
        × (IsActive b → IsActive (take_pending object_key d b o).1)
  take-pending k d b none h = (nothing k d (pending_at k b), λ a. a)
  take-pending k d b (some []) h = (nothing k d (pending_at k b), λ a. a)
  take-pending k d b (some (x ∷ xs)) h = (
    ap (λ o. drained_by k d (x ∷ xs) ++ entries o) (lookup-put d k [] b.pending)
        ∙ elim (Bool-cases (nat_beq d k)) [
          | inl same ↦ rw same (
              append-nil (x ∷ xs)
              ∙ sym (ap entries h)
              ∙ ap (λ j. pending_at j b) ((nat_beq_iff d k).0 same))
          | inr other ↦ rw other
        ],
    λ a. a,
  )

  drain-pending :
      (flushed : List IoEvent) (d k : ℕ) (b : Bridge)
      → IsActive b
      → (drained_by k d (drain object_key flushed d b).0
            ++ pending_at k (drain object_key flushed d b).1
          ≡ pending_at k b ++ shares k flushed b.tid_to_dpor)
        × IsActive (drain object_key flushed d b).1
  unfolding drain
  drain-pending flushed d k b a =
      let (p, q) = poll-pending k flushed b a in
      let (t, keeps) = take-pending k d (poll object_key flushed b) _ refl in (t ∙ p, keeps q)

  account :
      {b : Bridge} {came got : ℕ → List Entry}
      → Run b came got
      → IsActive b × ((k : ℕ) → came k ≡ got k ++ pending_at k b)
  unfolding clear lookup
  account (start b) = (refl, λ k. refl)
  account (register {b} {came} {got} os_tid d r) = (
    register-IsActive os_tid d b,
    λ k. (account r).1 k ∙ ap (λ l. got k ++ l) (sym (register-pending k os_tid d b)),
  )
  account (unregister {b} {came} {got} os_tid r) = (
    unregister-IsActive os_tid b (account r).0,
    λ k. (account r).1 k ∙ ap (λ l. got k ++ l) (unregister-pending k os_tid b),
  )
  account (event {b} {came} {got} e r) =
      let (a, all) = account r in
      (
        listener-IsActive e b a,
        λ k.
            ap (λ l. l ++ share k e b.tid_to_dpor) (all k)
            ∙ append_assoc (got k) (pending_at k b) (share k e b.tid_to_dpor)
            ∙ ap (λ l. got k ++ l) (sym (listener-pending k e b a)),
      )
  account (take_all {b} {came} {got} flushed d r) =
      let (a, all) = account r in
      (
        (drain-pending flushed d 0 b a).1,
        λ k.
            ap (λ l. l ++ shares k flushed b.tid_to_dpor) (all k)
            ∙ append_assoc (got k) (pending_at k b) (shares k flushed b.tid_to_dpor)
            ∙ ap (λ l. got k ++ l) (sym (drain-pending flushed d k b a).0)
            ∙ sym (
                append_assoc (got k) (drained_by k d (drain object_key flushed d b).0)
                  (pending_at k (drain object_key flushed d b).1)),
      )

-- In every run of one execution the events that came for a thread, by the registrations of the time
-- and without closings, are those that it has drained followed by those that are pending for it, in
-- the order in which they came.
pub Run-routed :
    (object_key : String → ℕ) {b : Bridge} {came got : ℕ → List Entry}
    → Run object_key b came got
    → (k : ℕ) → came k ≡ got k ++ pending_at k b
Run-routed object_key r k = (account object_key r).1 k
