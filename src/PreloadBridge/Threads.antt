-- ===== src/PreloadBridge/Threads.antt =====
-- _PreloadBridge: registration of threads, and the flag.
use native.Mathlib.Omega.{arith}
use frontrun.Prelude.{
  ℕ, ◌≡◌, refl, ap, ◌∙◌, true, false, not, none, List, [], ◌∷◌, string_eq, nat_eq, nat_beq,
  nat_beq_iff, lookup, put, delete, lookup-put, Bool-cases, inl, inr,
}
use frontrun.PreloadBridge.{
  Bridge, entries, pending_at, is_empty, register_thread, unregister_thread,
}

-- The flag says whether a thread is registered.
abbrev pub IsActive : Bridge → Type 0
IsActive b = b.active ≡ not (is_empty b.tid_to_dpor)

pub no_thread : (m : List (ℕ × ℕ)) (t : ℕ) → is_empty m ≡ true → lookup t m ≡ none
unfolding lookup
no_thread [] t h = refl
no_thread (x ∷ m) t h = absurd (ground arith)

pub off_is_empty : (b : Bridge) → IsActive b → b.active ≡ false → is_empty b.tid_to_dpor ≡ true
off_is_empty b a off = ground arith

is_empty-put : (k v : ℕ) (m : List (ℕ × ℕ)) → is_empty (put k v m) ≡ false
unfolding put
is_empty-put k v [] = refl
is_empty-put k v ((j, w) ∷ m) = ground arith

is_empty-delete : (k : ℕ) (m : List (ℕ × ℕ)) → is_empty m ≡ true → is_empty (delete k m) ≡ true
unfolding delete
is_empty-delete k [] h = refl
is_empty-delete k (x ∷ m) h = absurd (ground arith)

pub register-pending :
    (k os_tid d : ℕ) (b : Bridge) → pending_at k (register_thread os_tid d b) ≡ pending_at k b
unfolding register_thread
register-pending k os_tid d b =
    ap entries (lookup-put d k (pending_at d b) b.pending) ∙ elim (Bool-cases (nat_beq d k)) [
      | inl same ↦ rw same (ap (λ j. pending_at j b) ((nat_beq_iff d k).0 same))
      | inr other ↦ rw other
    ]

pub unregister-pending :
    (k os_tid : ℕ) (b : Bridge) → pending_at k b ≡ pending_at k (unregister_thread os_tid b)
unfolding unregister_thread
unregister-pending k os_tid b = refl

pub register-IsActive : (os_tid d : ℕ) (b : Bridge) → IsActive (register_thread os_tid d b)
unfolding register_thread
register-IsActive os_tid d b = ground (arith, is_empty-put os_tid d b.tid_to_dpor)

pub unregister-IsActive :
    (os_tid : ℕ) (b : Bridge) → IsActive b → IsActive (unregister_thread os_tid b)
unfolding unregister_thread
unregister-IsActive os_tid b a = ground (arith, a, is_empty-delete os_tid b.tid_to_dpor)
