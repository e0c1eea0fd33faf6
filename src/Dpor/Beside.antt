-- ===== src/Dpor/Beside.antt =====
-- frontrun/dpor.py: the reporters and the I/O of a scheduler stand beside the turns.
use frontrun.Prelude.{
  either_way, ℕ, ◌≡◌, refl, sym, ap, ◌∙◌, Option, none, some, List, [], ◌∷◌, ◌++◌, map, All,
  All-append, String, string_eq, nat_eq, ◌==◌, is_some, contains,
}
use mathlib.Core.List.{append_assoc, append-nil}
use frontrun.PreloadBridge.{IoEvent, Bridge}
use frontrun.Dpor.{Call, sync, block, unblock, Dpor, tell, report_error}
use frontrun.Dpor.Sync.{
  io_call, sync_reporter, io_reporter, collect_io, flush, lock_wait, lock_acquire, lock_release,
  stop_waiting, waiters_at, merge, setup_dpor_tls, teardown_dpor_tls,
}
use frontrun.Dpor.Log.{IsAside}

-- What the turns look at is as it was, and the calls since are others.
pub record IsBeside (s s' : Dpor) : Type 0 where
  pub calls : List Call
  pub aside : All IsAside calls
  pub log : s'.log ≡ s.log ++ calls
  pub current : s'.current_thread ≡ s.current_thread
  pub done : s'.threads_done ≡ s.threads_done

same : (s : Dpor) → IsBeside s s
same s = record {
  calls = [];
  aside = tt;
  log = sym (append-nil s.log);
  current = refl;
  done = refl;
}

unblocks-IsAside : (ts : List ℕ) → All IsAside (map unblock ts)
unblocks-IsAside [] = tt
unblocks-IsAside (t ∷ ts) = (tt, unblocks-IsAside ts)

ios-IsAside : (t : ℕ) (es : List (ℕ × String)) → All IsAside (map (io_call t) es)
ios-IsAside t [] = tt
ios-IsAside t ((k, kind) ∷ es) = (tt, ios-IsAside t es)

pub told : (s : Dpor) (c : Call) → IsAside c → IsBeside s (tell c s)
told s c h = record { calls = c ∷ []; aside = (h, tt); log = refl; current = refl; done = refl }

stop_waiting-IsBeside : (t obj : ℕ) (s : Dpor) → IsBeside s (stop_waiting t obj s)
stop_waiting-IsBeside t obj s =
    either_way (IsBeside s) (contains t (waiters_at obj s.lock_waiters))
      (record { calls = unblock t ∷ []; aside = (tt, tt); log = refl; current = refl; done = refl })
      (same s)

lock_acquire-IsBeside : (t obj : ℕ) (s : Dpor) → IsBeside s (lock_acquire t obj s)
unfolding lock_acquire
lock_acquire-IsBeside t obj s =
    let b = stop_waiting-IsBeside t obj s in
    record {
      calls = b.calls ++ (sync t "lock_acquire" obj ∷ []);
      aside = All-append IsAside b.calls (sync t "lock_acquire" obj ∷ []) b.aside (tt, tt);
      log =
          ap (λ l. l ++ (sync t "lock_acquire" obj ∷ [])) b.log
          ∙ append_assoc s.log b.calls (sync t "lock_acquire" obj ∷ []);
      current = b.current;
      done = b.done;
    }

lock_release-IsBeside : (t obj : ℕ) (s : Dpor) → IsBeside s (lock_release t obj s)
unfolding lock_release
lock_release-IsBeside t obj s = record {
  calls = map unblock (waiters_at obj s.lock_waiters) ++ (sync t "lock_release" obj ∷ []);
  aside =
      All-append IsAside (map unblock (waiters_at obj s.lock_waiters))
        (sync t "lock_release" obj ∷ []) (unblocks-IsAside (waiters_at obj s.lock_waiters))
        (tt, tt);
  log =
      append_assoc s.log (map unblock (waiters_at obj s.lock_waiters))
        (sync t "lock_release" obj ∷ []);
  current = refl;
  done = refl;
}

lock_wait-IsBeside : (t obj : ℕ) (s : Dpor) → IsBeside s (lock_wait t obj s)
unfolding lock_wait
lock_wait-IsBeside t obj s = record {
  calls = block t ∷ [];
  aside = (tt, tt);
  log = refl;
  current = refl;
  done = refl;
}

pub sync-IsBeside :
    (event : String) (t obj : ℕ) (s : Dpor) → IsBeside s (sync_reporter event t obj s)
unfolding sync_reporter
sync-IsBeside event t obj s =
    either_way (IsBeside s) (event == "lock_wait") (lock_wait-IsBeside t obj s) (
      either_way (IsBeside s) (event == "lock_acquire") (lock_acquire-IsBeside t obj s) (
        either_way (IsBeside s) (event == "lock_release") (lock_release-IsBeside t obj s)
          (told s (sync t event obj) tt)))

flush-IsBeside : (t : ℕ) (s : Dpor) → IsBeside s (flush t s)
unfolding flush
flush-IsBeside t s =
    either_way (IsBeside s) ((s.locals t).lock_depth == 0)
      (record {
        calls = map (io_call t) (s.locals t).pending_io;
        aside = ios-IsAside t (s.locals t).pending_io;
        log = refl;
        current = refl;
        done = refl;
      })
      (same s)

pub collect-IsBeside :
    (object_key : String → ℕ) (flushed : List IoEvent) (t : ℕ) (s : Dpor)
    → IsBeside s (collect_io object_key flushed t s)
unfolding collect_io
collect-IsBeside object_key flushed t s = merged s.bridge
  where
    merged : (b : Option Bridge) → IsBeside s (flush t (merge object_key flushed t b s))
    merged none = flush-IsBeside t s
    merged (some b) =
        let f = flush-IsBeside t (merge object_key flushed t (some b) s) in
        record { calls = f.calls; aside = f.aside; log = f.log; current = f.current; done = f.done }

pub io-IsBeside :
    (object_key : String → ℕ) (t : ℕ) (resource kind : String) (s : Dpor)
    → IsBeside s (io_reporter object_key t resource kind s)
unfolding io_reporter
io-IsBeside object_key t resource kind s = record {
  calls = [];
  aside = tt;
  log = sym (append-nil s.log);
  current = refl;
  done = refl;
}

pub error-IsBeside : (e : ℕ) (s : Dpor) → IsBeside s (report_error e s)
unfolding report_error
error-IsBeside e s =
    either_way (IsBeside s) (is_some s.error) (same s)
      (record { calls = []; aside = tt; log = sym (append-nil s.log); current = refl; done = refl })

pub setup-IsBeside : (os_tid t : ℕ) (s : Dpor) → IsBeside s (setup_dpor_tls os_tid t s)
unfolding setup_dpor_tls
setup-IsBeside os_tid t s = record {
  calls = [];
  aside = tt;
  log = sym (append-nil s.log);
  current = refl;
  done = refl;
}

pub teardown-IsBeside : (os_tid t : ℕ) (s : Dpor) → IsBeside s (teardown_dpor_tls os_tid t s)
unfolding teardown_dpor_tls
teardown-IsBeside os_tid t s = record {
  calls = [];
  aside = tt;
  log = sym (append-nil s.log);
  current = refl;
  done = refl;
}
