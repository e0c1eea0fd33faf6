-- ===== src/Dpor/Tests.antt =====
-- Two threads, one lock and one I/O event.
use frontrun.Prelude.{
  ℕ, ◌≡◌, refl, true, false, none, some, List, [], ◌∷◌, ◌++◌, String, string_eq, nat_eq, ◌==◌,
  if◌then◌else◌, contains, put, lookup, add,
}
use frontrun.Opcode.Follow.{Follows}
use frontrun.Dpor.{Engine, Dpor, returned, init, look, schedule_next, process}
use frontrun.Dpor.Sync.{
  waiters_at, sync_reporter, lock_wait, lock_acquire, lock_release, io_reporter, collect_io, flush,
  teardown_dpor_tls,
}
use frontrun.Dpor.Log.{to_list, decisions, InTurn, is_blocked, io_of}
use frontrun.Dpor.Flow.{depth_of, OutsideLocks}
use frontrun.Dpor.Runs.{Run, has_left}
use frontrun.Dpor.Turns.{Run-decisions}
use frontrun.Dpor.Waiters.{Run-unblocked}
use frontrun.Dpor.Delivery.{Run-delivers}

abbrev engine : Engine
engine = record { runnable = λ log. 0 ∷ 1 ∷ []; schedule = λ log. some 0 }

abbrev key : String → ℕ
key resource = 7

-- Thread 0 takes lock 5, thread 1 waits for it, and thread 0 sends; nothing is reported yet.
abbrev locked : Dpor
locked = sync_reporter "lock_wait" 1 5 (sync_reporter "lock_acquire" 0 5 (init engine 2 false none))

abbrev sent : Dpor
sent = collect_io key [] 0 (io_reporter key 0 "db" "write" locked)

abbrev came : ℕ → List (ℕ × String)
came u = ([] ++ (if u == 0 then (7, "write") ∷ [] else [])) ++ (if u == 0 then [] else [])

abbrev granted : List ℕ
granted = [] ++ (0 ∷ [])

abbrev stepped : Dpor
stepped = (look engine 0 none sent).1

granted_step : look engine 0 none sent ≡ (returned true, stepped)
unfolding look process init schedule_next sync_reporter lock_wait lock_acquire io_reporter
    collect_io flush lookup contains
granted_step = refl

run : Run engine key 2 false none stepped granted came
unfolding io_reporter sync_reporter lock_wait lock_acquire contains lookup init schedule_next
run = Run.looked 0 none granted_step (
    Run.collected [] 0 (
      Run.io_event 0 "db" "write"
        (Run.sync_event "lock_wait" 1 5 (Run.sync_event "lock_acquire" 0 5 Run.start))))

still_inside : has_left 0 run ≡ false
unfolding run
still_inside = refl

Run-decisions_example :
    (settled : List ℕ) × (decisions stepped.log ≡ settled ++ to_list stepped.current_thread)
    × Follows stepped.threads_done settled granted
    × InTurn none stepped.log
Run-decisions_example = Run-decisions run

waiter_blocked : is_blocked 1 false stepped.log ≡ true
unfolding look process init schedule_next sync_reporter lock_wait lock_acquire io_reporter
    collect_io flush lookup contains
waiter_blocked = refl

Run-unblocked_example :
    (obj : ℕ) × (contains 1 (waiters_at obj stepped.lock_waiters) ≡ true)
    × ((u : ℕ) → is_blocked 1 false (sync_reporter "lock_release" u obj stepped).log ≡ false)
Run-unblocked_example = Run-unblocked 1 run waiter_blocked

Run-delivers_example :
    (io_of 0 stepped.log ++ (stepped.locals 0).pending_io ≡ came 0)
    × (depth_of 0 0 stepped.log ≡ (stepped.locals 0).lock_depth)
    × OutsideLocks 0 0 stepped.log
    × ((os_tid : ℕ)
        → (io_of 0 (teardown_dpor_tls os_tid 0 stepped).log ≡ io_of 0 stepped.log)
          × (((teardown_dpor_tls os_tid 0 stepped).locals 0).pending_io ≡ []))
Run-delivers_example = Run-delivers 0 run still_inside

-- The event goes to the engine once the lock is released, before the thread's next turn.
reported_after_release :
    io_of 0 (collect_io key [] 0 (sync_reporter "lock_release" 0 5 stepped)).log ≡ (7, "write") ∷ []
unfolding look process init schedule_next sync_reporter lock_wait lock_acquire lock_release
    io_reporter collect_io flush lookup contains put add
reported_after_release = refl
