-- ===== src/Dpor/Io.antt =====
-- frontrun/dpor.py: the reporters' and the flush's part in the account of a thread.
use frontrun.Prelude.{
  either_way, by_test, ℕ, ◌+◌, ◌-◌, ◌≡◌, refl, sym, ap, ◌∙◌, true, false, List, [], ◌∷◌, ◌++◌, map,
  String, string_eq, nat_eq, nat_beq_iff, ◌==◌, if◌then◌else◌, arith, Bool-cases, ◌⊎◌, inl, inr,
  contains, delete,
}
use mathlib.Core.List.{append-nil}
use frontrun.Shadow.{Report}
use frontrun.Dpor.{Call, access, sync, block, unblock, Local, Dpor, tell, tell_all, set_local}
use frontrun.Dpor.Sync.{
  set_depth, waiters_at, stop_waiting, lock_wait, lock_acquire, lock_release, sync_reporter, flush,
  add_pending, io_call,
}
use frontrun.Dpor.Log.{io_of}
use frontrun.Dpor.Flow.{depth_step, depth_of, OutsideLocks, IsStep, IsStep-then, stay}

-- The calls of other kinds change nothing of the account.
unblocks-silent :
    (u n : ℕ) (ts : List ℕ)
    → (io_of u (map unblock ts) ≡ [])
      × (depth_of u n (map unblock ts) ≡ n)
      × OutsideLocks u n (map unblock ts)
unblocks-silent u n [] = (refl, refl, tt)
unblocks-silent u n (t ∷ ts) = unblocks-silent u n ts

pub accesses-silent :
    (u n t : ℕ) (rs : List Report)
    → (io_of u (map (access t) rs) ≡ [])
      × (depth_of u n (map (access t) rs) ≡ n)
      × OutsideLocks u n (map (access t) rs)
accesses-silent u n t [] = (refl, refl, tt)
accesses-silent u n t (r ∷ rs) = accesses-silent u n t rs

-- The I/O events of a thread that holds no lock.
ios-of :
    (u t : ℕ) (es : List (ℕ × String)) → io_of u (map (io_call t) es) ≡ (if u == t then es else [])
ios-of u t [] = ground arith
ios-of u t ((k, kind) ∷ es) = ground (arith, ios-of u t es)

ios-outside :
    (u t n : ℕ) (es : List (ℕ × String))
    → ((u == t) ≡ true → n ≡ 0)
    → (depth_of u n (map (io_call t) es) ≡ n) × OutsideLocks u n (map (io_call t) es)
ios-outside u t n [] h = (refl, tt)
ios-outside u t n ((k, kind) ∷ es) h = let (e, o) = ios-outside u t n es h in (e, (h, o))

-- What one thread finds after a change of another's, or of its own, data.
pub local_cases :
    (u t : ℕ) (l : Local) (s : Dpor)
    → (((u == t) ≡ true) × (s.locals u ≡ s.locals t) × ((set_local t l s).locals u ≡ l))
      ⊎ (((u == t) ≡ false) × ((set_local t l s).locals u ≡ s.locals u))
local_cases u t l s = elim (Bool-cases (u == t)) [
  | inl e ↦ inl (e, ap s.locals ((nat_beq_iff u t).0 e), rw e)
  | inr e ↦ inr (e, rw e)
]

pub flush-IsStep : (u t : ℕ) (s : Dpor) → IsStep u s (flush t s) []
unfolding flush
flush-IsStep u t s =
    by_test (λ (x : Dpor). IsStep u s x []) ((s.locals t).lock_depth == 0)
      (λ e. flushed ((nat_beq_iff (s.locals t).lock_depth 0).0 e)) (λ e. stay u s)
  where
    flushed :
        (s.locals t).lock_depth ≡ 0
        → IsStep u s
            (set_local t
              (record (s.locals t) { pending_io = [] })
              (tell_all (map (io_call t) (s.locals t).pending_io) s))
            []
    flushed no_lock = elim (local_cases u t (record (s.locals t) { pending_io = [] }) s) [
      | inl (e, same, new) ↦
          let (d, o) =
            ios-outside u t (s.locals u).lock_depth (s.locals t).pending_io
              (λ e. ap (λ (l : Local). l.lock_depth) same ∙ no_lock) in
          record {
            calls = map (io_call t) (s.locals t).pending_io;
            log = refl;
            flow =
                ap (λ l. io_of u (map (io_call t) (s.locals t).pending_io) ++ l.pending_io) new
                ∙ append-nil (io_of u (map (io_call t) (s.locals t).pending_io))
                ∙ ios-of u t (s.locals t).pending_io
                ∙ rw e (
                    ap (λ (l : Local). l.pending_io) (sym same)
                    ∙ sym (append-nil (s.locals u).pending_io));
            depth =
                d
                ∙ ap (λ (l : Local). l.lock_depth) same
                ∙ ap (λ (l : Local). l.lock_depth) (sym new);
            outside = o;
          }
      | inr (e, new) ↦
          let (d, o) =
            ios-outside u t (s.locals u).lock_depth (s.locals t).pending_io (λ e'. cc (e, e')) in
          record {
            calls = map (io_call t) (s.locals t).pending_io;
            log = refl;
            flow =
                ap (λ l. io_of u (map (io_call t) (s.locals t).pending_io) ++ l.pending_io) new
                ∙ ap (λ l. l ++ (s.locals u).pending_io) (ios-of u t (s.locals t).pending_io)
                ∙ rw e (sym (append-nil (s.locals u).pending_io));
            depth = d ∙ ap (λ (l : Local). l.lock_depth) (sym new);
            outside = o;
          }
    ]

-- New events of a thread, with no call.
pub pending-IsStep :
    (u t : ℕ) (es : List (ℕ × String)) (s : Dpor)
    → IsStep u s (add_pending t es s) (if u == t then es else [])
pending-IsStep u t es s =
    elim (local_cases u t (record (s.locals t) { pending_io = (s.locals t).pending_io ++ es }) s) [
      | inl (e, same, new) ↦ record {
        calls = [];
        log = sym (append-nil s.log);
        flow =
            ap (λ (l : Local). l.pending_io) new
            ∙ ap (λ (l : Local). l.pending_io ++ es) (sym same)
            ∙ rw e;
        depth = ap (λ (l : Local). l.lock_depth) same ∙ ap (λ (l : Local). l.lock_depth) (sym new);
        outside = tt;
      }
      | inr (e, new) ↦ record {
        calls = [];
        log = sym (append-nil s.log);
        flow =
            ap (λ (l : Local). l.pending_io) new ∙ sym (append-nil (s.locals u).pending_io) ∙ rw e;
        depth = ap (λ (l : Local). l.lock_depth) (sym new);
        outside = tt;
      }
    ]

-- An event of a lock, told to the engine, and the depth that goes with it.
depth-IsStep :
    (u t obj : ℕ) (event : String) (n : ℕ) (s : Dpor)
    → depth_step event (s.locals t).lock_depth ≡ n
    → IsStep u s (set_depth t n (tell (sync t event obj) s)) []
depth-IsStep u t obj event n s h =
    elim (local_cases u t (record (s.locals t) { lock_depth = n }) s) [
      | inl (e, same, new) ↦ record {
        calls = sync t event obj ∷ [];
        log = refl;
        flow =
            ap (λ (l : Local). l.pending_io) new
            ∙ ap (λ (l : Local). l.pending_io) (sym same)
            ∙ sym (append-nil (s.locals u).pending_io);
        depth = rw e (ap (λ (l : Local). depth_step event l.lock_depth) same ∙ h);
        outside = tt;
      }
      | inr (e, new) ↦ record {
        calls = sync t event obj ∷ [];
        log = refl;
        flow = ap (λ (l : Local). l.pending_io) new ∙ sym (append-nil (s.locals u).pending_io);
        depth = rw e refl;
        outside = tt;
      }
    ]

-- One call that is neither of I/O nor of a lock.
pub silent-IsStep :
    (u : ℕ) (s : Dpor) (c : Call)
    → io_of u (c ∷ []) ≡ []
    → depth_of u (s.locals u).lock_depth (c ∷ []) ≡ (s.locals u).lock_depth
    → OutsideLocks u (s.locals u).lock_depth (c ∷ [])
    → IsStep u s (tell c s) []
silent-IsStep u s c no_io no_lock outside = record {
  calls = c ∷ [];
  log = refl;
  flow = ap (λ l. l ++ (s.locals u).pending_io) no_io ∙ sym (append-nil (s.locals u).pending_io);
  depth = no_lock;
  outside = outside;
}

stop_waiting-IsStep : (u t obj : ℕ) (s : Dpor) → IsStep u s (stop_waiting t obj s) []
stop_waiting-IsStep u t obj s =
    either_way (λ (x : Dpor). IsStep u s x []) (contains t (waiters_at obj s.lock_waiters))
      (record {
        calls = unblock t ∷ [];
        log = refl;
        flow = sym (append-nil (s.locals u).pending_io);
        depth = refl;
        outside = tt;
      })
      (stay u s)

lock_acquire-IsStep : (u t obj : ℕ) (s : Dpor) → IsStep u s (lock_acquire t obj s) []
unfolding lock_acquire
lock_acquire-IsStep u t obj s = IsStep-then u (stop_waiting-IsStep u t obj s) (
    depth-IsStep u t obj "lock_acquire" ((s.locals t).lock_depth + 1) (stop_waiting t obj s) (
      either_way (λ (x : Dpor). (x.locals t).lock_depth + 1 ≡ (s.locals t).lock_depth + 1)
        (contains t (waiters_at obj s.lock_waiters)) refl refl))

lock_release-IsStep : (u t obj : ℕ) (s : Dpor) → IsStep u s (lock_release t obj s) []
unfolding lock_release
lock_release-IsStep u t obj s =
    let (no_io, no_lock, outside) =
      unblocks-silent u (s.locals u).lock_depth (waiters_at obj s.lock_waiters) in
    IsStep-then u {s = s}
      {t = tell_all (map unblock (waiters_at obj s.lock_waiters))
        (record s { lock_waiters = delete obj s.lock_waiters })}
      (record {
        calls = map unblock (waiters_at obj s.lock_waiters);
        log = refl;
        flow =
            ap (λ l. l ++ (s.locals u).pending_io) no_io ∙ sym (append-nil (s.locals u).pending_io);
        depth = no_lock;
        outside = outside;
      })
      (depth-IsStep u t obj "lock_release" ((s.locals t).lock_depth - 1)
        (tell_all (map unblock (waiters_at obj s.lock_waiters))
          (record s { lock_waiters = delete obj s.lock_waiters }))
        refl)

pub sync-IsStep :
    (u : ℕ) (event : String) (t obj : ℕ) (s : Dpor) → IsStep u s (sync_reporter event t obj s) []
unfolding sync_reporter lock_wait
sync-IsStep u event t obj s =
    either_way P (event == "lock_wait")
      (record {
        calls = block t ∷ [];
        log = refl;
        flow = sym (append-nil (s.locals u).pending_io);
        depth = refl;
        outside = tt;
      })
      (by_test P (event == "lock_acquire") (λ e. lock_acquire-IsStep u t obj s)
        (λ no_acquire.
          by_test P (event == "lock_release") (λ e. lock_release-IsStep u t obj s)
            (λ no_release.
              silent-IsStep u s (sync t event obj) refl
                (elim (Bool-cases (u == t)) [
                  | inl e ↦ rw (e, no_acquire, no_release)
                  | inr e ↦ rw e
                ])
                tt)))
  where
    P : Dpor → Type 0
    P x = IsStep u s x []
