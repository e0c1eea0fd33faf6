-- ===== src/Dpor/Sync.antt =====
-- frontrun/dpor.py, the reporters of `_setup_dpor_tls` and the I/O part of `_report_and_wait`.
use frontrun.Prelude.{
  ℕ, ◌+◌, ◌-◌, Option, none, some, List, [], ◌∷◌, ◌++◌, map, String, string_eq, nat_eq, ◌==◌,
  if◌then◌else◌, lookup, put, delete, add, discard, contains,
}
use frontrun.PreloadBridge.{IoEvent, Entry, Bridge, drain, register_thread, unregister_thread}
use frontrun.Dpor.{Call, io, sync, block, unblock, Dpor, tell, tell_all, set_local}

abbrev pub waiters_of : Option (List ℕ) → List ℕ
waiters_of none = []
waiters_of (some ts) = ts

-- `_lock_waiters.get(obj_id, set())`
abbrev pub waiters_at : ℕ → List (ℕ × List ℕ) → List ℕ
waiters_at obj m = waiters_of (lookup obj m)

abbrev pub set_depth : ℕ → ℕ → Dpor → Dpor
set_depth t d s = set_local t (record (s.locals t) { lock_depth = d }) s

-- `_sync_reporter` of thread `t`, by the event
unfoldable pub lock_wait : ℕ → ℕ → Dpor → Dpor
lock_wait t obj s =
    tell (block t)
      (record s { lock_waiters = put obj (add t (waiters_at obj s.lock_waiters)) s.lock_waiters })

-- The waiter is no longer one.
abbrev pub stop_waiting : ℕ → ℕ → Dpor → Dpor
stop_waiting t obj s =
    if contains t (waiters_at obj s.lock_waiters)
    then tell (unblock t) (record s {
      lock_waiters = put obj (discard t (waiters_at obj s.lock_waiters)) s.lock_waiters;
    })
    else s

unfoldable pub lock_acquire : ℕ → ℕ → Dpor → Dpor
lock_acquire t obj s =
    set_depth t ((s.locals t).lock_depth + 1)
      (tell (sync t "lock_acquire" obj) (stop_waiting t obj s))

unfoldable pub lock_release : ℕ → ℕ → Dpor → Dpor
lock_release t obj s = set_depth t ((s.locals t).lock_depth - 1) (
    tell (sync t "lock_release" obj) (
      tell_all (map unblock (waiters_at obj s.lock_waiters))
        (record s { lock_waiters = delete obj s.lock_waiters })))

unfoldable pub sync_reporter : String → ℕ → ℕ → Dpor → Dpor
sync_reporter event t obj s =
    if event == "lock_wait"
    then lock_wait t obj s
    else if event == "lock_acquire"
    then lock_acquire t obj s
    else if event == "lock_release"
    then lock_release t obj s
    else tell (sync t event obj) s

abbrev pub add_pending : ℕ → List (ℕ × String) → Dpor → Dpor
add_pending t es s =
    set_local t (record (s.locals t) { pending_io = (s.locals t).pending_io ++ es }) s

-- `(key, kind)` of a drained entry, and what the recorder is told of it
abbrev pub io_pair : Entry → ℕ × String
io_pair (key, kind, resource) = (key, kind)

abbrev pub io_record : ℕ → Entry → ℕ × String × String
io_record t (key, kind, resource) = (t, resource, kind)

-- `_io_reporter`; the trace's record of the user's frame is not part of it.
unfoldable pub io_reporter : (String → ℕ) → ℕ → String → String → Dpor → Dpor
io_reporter object_key t resource kind s = add_pending t ((object_key resource, kind) ∷ []) s

abbrev pub io_call : ℕ → ℕ × String → Call
io_call t (key, kind) = io t key kind

-- The events that the bridge hands out are recorded and join the pending ones.
abbrev pub merge_drained : ℕ → List Entry × Bridge → Dpor → Dpor
merge_drained t (es, b) s = add_pending t (map io_pair es) (record s {
  bridge = some b;
  recorded = if s.has_recorder then s.recorded ++ map (io_record t) es else s.recorded;
})

abbrev pub merge : (String → ℕ) → List IoEvent → ℕ → Option Bridge → Dpor → Dpor
merge object_key flushed t none s = s
merge object_key flushed t (some b) s = merge_drained t (drain object_key flushed t b) s

-- The pending events are reported where the thread holds no lock.
unfoldable pub flush : ℕ → Dpor → Dpor
flush t s =
    if (s.locals t).lock_depth == 0
    then set_local t (record (s.locals t) { pending_io = [] })
        (tell_all (map (io_call t) (s.locals t).pending_io) s)
    else s

-- The part of `_report_and_wait` before its loop; `flushed` is what the bridge's pipe still holds.
unfoldable pub collect_io : (String → ℕ) → List IoEvent → ℕ → Dpor → Dpor
collect_io object_key flushed t s = flush t (merge object_key flushed t s.bridge s)

abbrev pub on_bridge : (Bridge → Bridge) → Option Bridge → Option Bridge
on_bridge f none = none
on_bridge f (some b) = some (f b)

-- The thread's start and its end, less the other modules' contexts.
unfoldable pub setup_dpor_tls : ℕ → ℕ → Dpor → Dpor
setup_dpor_tls os_tid t s =
    set_local t (record (s.locals t) { pending_io = []; lock_depth = 0 })
      (record s { bridge = on_bridge (register_thread os_tid t) s.bridge })

unfoldable pub teardown_dpor_tls : ℕ → ℕ → Dpor → Dpor
teardown_dpor_tls os_tid t s =
    set_local t (record (s.locals t) { pending_io = []; lock_depth = 0 })
      (record s { bridge = on_bridge (unregister_thread os_tid) s.bridge })
