-- ===== src/Dpor/Runs.antt =====
-- The runs of one execution: what happens under the condition's lock, in any order.
use frontrun.Prelude.{
  ℕ, ◌≡◌, Bool, true, false, Option, none, some, List, [], ◌∷◌, ◌++◌, map, String, nat_eq, ◌==◌,
  if◌then◌else◌,
}
use frontrun.PreloadBridge.{IoEvent, Bridge, drain}
use frontrun.Dpor.{
  Engine, Local, Dpor, Place, Answer, returned, init, look, time_out, mark_done, report_error,
}
use frontrun.Dpor.Sync.{
  io_pair, sync_reporter, io_reporter, collect_io, setup_dpor_tls, teardown_dpor_tls,
}

-- The turns that an answer grants.
abbrev pub grant : ℕ → Answer → List ℕ
grant t (returned true) = t ∷ []
grant t _ = []

-- The events that a thread takes from the bridge.
abbrev pub drained_of : (String → ℕ) → List IoEvent → ℕ → Option Bridge → List (ℕ × String)
drained_of object_key flushed t none = []
drained_of object_key flushed t (some b) = map io_pair (drain object_key flushed t b).0

abbrev pub come_to : ℕ → List (ℕ × String) → (ℕ → List (ℕ × String)) → ℕ → List (ℕ × String)
come_to t es came u = came u ++ (if u == t then es else [])

-- A thread's own data before its setup.
abbrev pub fresh : Local
fresh = record { pending_io = []; lock_depth = 0; shadow_stacks = [] }

-- The indices are the scheduler, the threads whose calls returned True, in order, and the I/O events
-- that came to each thread.
pub data Run (engine : Engine) (object_key : String → ℕ) (n : ℕ) (recorder : Bool)
    (bridge : Option Bridge) : Dpor → List ℕ → (ℕ → List (ℕ × String)) → Type 0 where
  start : Run engine object_key n recorder bridge (init engine n recorder bridge) [] (λ t. [])
  sync_event :
      {s : Dpor} {granted : List ℕ} {came : ℕ → List (ℕ × String)} (event : String) (t obj : ℕ)
      → Run engine object_key n recorder bridge s granted came
      → Run engine object_key n recorder bridge (sync_reporter event t obj s) granted came
  io_event :
      {s : Dpor} {granted : List ℕ} {came : ℕ → List (ℕ × String)} (t : ℕ) (resource kind : String)
      → Run engine object_key n recorder bridge s granted came
      → Run engine object_key n recorder bridge
          (io_reporter object_key t resource kind s)
          granted
          (come_to t ((object_key resource, kind) ∷ []) came)
  collected :
      {s : Dpor} {granted : List ℕ} {came : ℕ → List (ℕ × String)} (flushed : List IoEvent) (t : ℕ)
      → Run engine object_key n recorder bridge s granted came
      → Run engine object_key n recorder bridge
          (collect_io object_key flushed t s)
          granted
          (come_to t (drained_of object_key flushed t s.bridge) came)
  looked :
      {s s' : Dpor} {granted : List ℕ} {came : ℕ → List (ℕ × String)} {a : Answer} (t : ℕ)
      (place : Option Place)
      → look engine t place s ≡ (a, s')
      → Run engine object_key n recorder bridge s granted came
      → Run engine object_key n recorder bridge s' (granted ++ grant t a) came
  expired :
      {s s' : Dpor} {granted : List ℕ} {came : ℕ → List (ℕ × String)} {a : Answer} (t : ℕ)
      → time_out engine t s ≡ (a, s')
      → Run engine object_key n recorder bridge s granted came
      → Run engine object_key n recorder bridge s' granted came
  done :
      {s : Dpor} {granted : List ℕ} {came : ℕ → List (ℕ × String)} (t : ℕ)
      → Run engine object_key n recorder bridge s granted came
      → Run engine object_key n recorder bridge (mark_done engine t s) granted came
  failed :
      {s : Dpor} {granted : List ℕ} {came : ℕ → List (ℕ × String)} (e : ℕ)
      → Run engine object_key n recorder bridge s granted came
      → Run engine object_key n recorder bridge (report_error e s) granted came
  -- A thread begins with data of its own, and drops them at its end.
  enters :
      {s : Dpor} {granted : List ℕ} {came : ℕ → List (ℕ × String)} (os_tid t : ℕ)
      → s.locals t ≡ fresh
      → Run engine object_key n recorder bridge s granted came
      → Run engine object_key n recorder bridge (setup_dpor_tls os_tid t s) granted came
  leaves :
      {s : Dpor} {granted : List ℕ} {came : ℕ → List (ℕ × String)} (os_tid t : ℕ)
      → Run engine object_key n recorder bridge s granted came
      → Run engine object_key n recorder bridge (teardown_dpor_tls os_tid t s) granted came

-- Whether the thread's end is part of the run.
abbrev pub has_left :
    {engine : Engine} {object_key : String → ℕ} {n : ℕ} {recorder : Bool} {bridge : Option Bridge}
    {s : Dpor} {granted : List ℕ} {came : ℕ → List (ℕ × String)} (u : ℕ)
    → Run engine object_key n recorder bridge s granted came
    → Bool
has_left u Run.start = false
has_left u (Run.sync_event event t obj r) = has_left u r
has_left u (Run.io_event t resource kind r) = has_left u r
has_left u (Run.collected flushed t r) = has_left u r
has_left u (Run.looked t place e r) = has_left u r
has_left u (Run.expired t e r) = has_left u r
has_left u (Run.done t r) = has_left u r
has_left u (Run.failed e r) = has_left u r
has_left u (Run.enters os_tid t e r) = has_left u r
has_left u (Run.leaves os_tid t r) = if u == t then true else has_left u r
