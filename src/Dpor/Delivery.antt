-- ===== src/Dpor/Delivery.antt =====
-- frontrun/dpor.py: what becomes of a thread's I/O events, up to its end.
use frontrun.Prelude.{
  either_way, ℕ, ◌≡◌, refl, sym, ap, ◌∙◌, Bool, true, false, nat_beq_iff, ◌||◌, Option, none, some,
  List, [], ◌∷◌, ◌++◌, map, String, string_eq, nat_eq, ◌==◌, if◌then◌else◌, is_some, Bool-cases,
  inl, inr, add, put,
}
use mathlib.Core.List.{append-nil}
use mathlib.Core.Path.{subst}
use frontrun.PreloadBridge.{IoEvent, Bridge, drain}
use frontrun.Shadow.{Shadow}
use frontrun.Shadow.Process.{process_opcode}
use frontrun.Dpor.{
  scheduled, access, finish, Local, Dpor, Engine, Place, Answer, tell, set_local, blank, init, look,
  time_out, mark_done, report_error, schedule_next, process, processed, get_shadow_stack,
  after_process, is_thread, in_done,
}
use frontrun.Dpor.Sync.{
  io_reporter, collect_io, flush, merge, add_pending, io_pair, io_record, setup_dpor_tls,
  teardown_dpor_tls,
}
use frontrun.Dpor.Settle.{schedule_next-cases}
use frontrun.Dpor.Log.{io_of}
use frontrun.Dpor.Io.{
  accesses-silent, flush-IsStep, pending-IsStep, silent-IsStep, sync-IsStep, local_cases,
}
use frontrun.Dpor.Flow.{
  depth_of, OutsideLocks, IsStep, IsBalanced, IsStep-IsBalanced, IsStep-then, stay,
}
use frontrun.Dpor.Runs.{Run, drained_of, fresh, has_left}

some_inj : {s' t : Dpor} → some s' ≡ some t → s' ≡ t
some_inj e = cc e

collect-IsStep :
    (u : ℕ) (object_key : String → ℕ) (flushed : List IoEvent) (t : ℕ) (s : Dpor)
    → IsStep u s
        (collect_io object_key flushed t s)
        (if u == t then drained_of object_key flushed t s.bridge else [])
unfolding collect_io
collect-IsStep u object_key flushed t s = merged s.bridge
  where
    merged :
        (b : Option Bridge)
        → IsStep u s
            (flush t (merge object_key flushed t b s))
            (if u == t then drained_of object_key flushed t b else [])
    merged none = elim (Bool-cases (u == t)) [
      | inl e ↦ rw e (flush-IsStep u t s)
      | inr e ↦ rw e (flush-IsStep u t s)
    ]
    merged (some b) =
        let (es, b') = drain object_key flushed t b in
        let drained : Dpor = record s {
          bridge = some b';
          recorded = if s.has_recorder then s.recorded ++ map (io_record t) es else s.recorded;
        } in
        let p = pending-IsStep u t (map io_pair es) drained in
        let f = flush-IsStep u t (add_pending t (map io_pair es) drained) in
        let both = IsStep-then u p f in
        record {
          calls = both.calls;
          log = both.log;
          flow = both.flow ∙ ap (λ l. (s.locals u).pending_io ++ l) (append-nil _);
          depth = both.depth;
          outside = both.outside;
        }

next-IsStep : (u : ℕ) (engine : Engine) (s : Dpor) → IsStep u s (schedule_next engine s).1 []
next-IsStep u engine s = elim (schedule_next-cases engine s) [
  | inl e ↦ subst (λ (x : Option ℕ × Dpor). IsStep u s x.1 []) (sym e) (stay u s)
  | inr e ↦
      subst (λ (x : Option ℕ × Dpor). IsStep u s x.1 []) (sym e)
        (silent-IsStep u s (scheduled (engine.schedule s.log)) refl refl tt)
]

-- The same calls and thread data make the same step.
IsStep-same :
    (u : ℕ) {s t r : Dpor} {es : List (ℕ × String)}
    → r.log ≡ t.log
    → r.locals u ≡ t.locals u
    → IsStep u s t es
    → IsStep u s r es
IsStep-same u {s} {t} {r} {es} log_eq local_eq a = record {
  calls = a.calls;
  log = log_eq ∙ a.log;
  flow = ap (λ (l : Local). io_of u a.calls ++ l.pending_io) local_eq ∙ a.flow;
  depth = a.depth ∙ ap (λ (l : Local). l.lock_depth) (sym local_eq);
  outside = a.outside;
}

-- New stacks of a thread leave its events and its depth.
stacks-kept :
    (u t : ℕ) (stacks : List (ℕ × Shadow)) (s : Dpor)
    → let l = (set_local t (record (s.locals t) { shadow_stacks = stacks }) s).locals u in
      (l.pending_io ≡ (s.locals u).pending_io) × (l.lock_depth ≡ (s.locals u).lock_depth)
stacks-kept u t stacks s =
    elim (local_cases u t (record (s.locals t) { shadow_stacks = stacks }) s) [
      | inl (e, same, new) ↦ (
        ap (λ (l : Local). l.pending_io) new ∙ ap (λ (l : Local). l.pending_io) (sym same),
        ap (λ (l : Local). l.lock_depth) new ∙ ap (λ (l : Local). l.lock_depth) (sym same),
      )
      | inr (e, new) ↦ (ap (λ (l : Local). l.pending_io) new, ap (λ (l : Local). l.lock_depth) new)
    ]

processed-IsStep :
    (u t frame_id : ℕ) (s s' : Dpor) (o : Option Shadow)
    → processed t frame_id s o ≡ some s'
    → IsStep u s s' []
processed-IsStep u t frame_id s s' none e = cc e
processed-IsStep u t frame_id s s' (some sh) e =
    let (no_io, no_lock, outside) = accesses-silent u (s.locals u).lock_depth t sh.reports in
    let (pending, depth) =
      stacks-kept u t (put frame_id (record sh { reports = [] }) (s.locals t).shadow_stacks) s in
    subst (λ x. IsStep u s x []) (some_inj e)
      (record {
        calls = map (access t) sh.reports;
        log = refl;
        flow =
            ap (λ q. io_of u (map (access t) sh.reports) ++ q) pending
            ∙ ap (λ es. es ++ (s.locals u).pending_io) no_io
            ∙ sym (append-nil (s.locals u).pending_io);
        depth = no_lock ∙ sym depth;
        outside = outside;
      })

process-IsStep :
    (u t : ℕ) (place : Option Place) (s s' : Dpor) → process t place s ≡ some s' → IsStep u s s' []
unfolding process
process-IsStep u t none s s' e = subst (λ x. IsStep u s x []) (some_inj e) (stay u s)
process-IsStep u t (some p) s s' e =
    processed-IsStep u t p.frame_id s s'
      (process_opcode p.runtime p.frame s.has_recorder p.op
        (get_shadow_stack p.frame_id (s.locals t)))
      e

look-IsStep :
    (u : ℕ) (engine : Engine) (t : ℕ) (place : Option Place) (s : Dpor)
    → IsStep u s (look engine t place s).1 []
unfolding look
look-IsStep u engine t place s = either_way P (s.finished || is_some s.error) (stay u s) (
    either_way P (is_thread t s.current_thread)
      (by (process t place s) (process-IsStep u t place s)) (stay u s))
  where
    P : Answer × Dpor → Type 0
    P x = IsStep u s x.1 []

    by :
        (o : Option Dpor)
        → ((s' : Dpor) → o ≡ some s' → IsStep u s s' [])
        → P (after_process engine s o)
    by none h = stay u s
    by (some s') h = IsStep-same u refl refl (IsStep-then u (h s' refl) (next-IsStep u engine s'))

time_out-IsStep :
    (u : ℕ) (engine : Engine) (t : ℕ) (s : Dpor) → IsStep u s (time_out engine t s).1 []
unfolding time_out
time_out-IsStep u engine t s =
    either_way (λ (x : Answer × Dpor). IsStep u s x.1 []) (in_done s.threads_done s.current_thread)
      (IsStep-same u refl refl (next-IsStep u engine s)) (IsStep-same u refl refl (stay u s))

mark_done-IsStep :
    (u : ℕ) (engine : Engine) (t : ℕ) (s : Dpor) → IsStep u s (mark_done engine t s) []
unfolding mark_done
mark_done-IsStep u engine t s =
    let more : Dpor = record s { threads_done = add t s.threads_done } in
    let told : IsStep u more (tell (finish t) more) [] =
      silent-IsStep u more (finish t) refl refl tt in
    let both = IsStep-then u told (next-IsStep u engine (tell (finish t) more)) in
    either_way (λ (x : Dpor). IsStep u s x []) (is_thread t s.current_thread)
      (record {
        calls = both.calls;
        log = both.log;
        flow = both.flow;
        depth = both.depth;
        outside = both.outside;
      })
      (record {
        calls = told.calls;
        log = told.log;
        flow = told.flow;
        depth = told.depth;
        outside = told.outside;
      })

error-IsStep : (u e : ℕ) (s : Dpor) → IsStep u s (report_error e s) []
unfolding report_error
error-IsStep u e s =
    either_way (λ (x : Dpor). IsStep u s x []) (is_some s.error) (stay u s)
      (IsStep-same u refl refl (stay u s))

io-IsStep :
    (u : ℕ) (object_key : String → ℕ) (t : ℕ) (resource kind : String) (s : Dpor)
    → IsStep u s
        (io_reporter object_key t resource kind s)
        (if u == t then (object_key resource, kind) ∷ [] else [])
unfolding io_reporter
io-IsStep u object_key t resource kind s = pending-IsStep u t ((object_key resource, kind) ∷ []) s

-- A step to which nothing comes.
still :
    (u : ℕ) {s s' : Dpor} {came : List (ℕ × String)}
    → IsStep u s s' []
    → IsBalanced u s came
    → IsBalanced u s' came
still u {s} {s'} {came} st v = subst (IsBalanced u s') (append-nil came) (IsStep-IsBalanced u st v)

enters-IsStep :
    (u os_tid t : ℕ) (s : Dpor) → s.locals t ≡ fresh → IsStep u s (setup_dpor_tls os_tid t s) []
unfolding setup_dpor_tls
enters-IsStep u os_tid t s e =
    elim (local_cases u t (record (s.locals t) { pending_io = []; lock_depth = 0 }) s) [
      | inl (here, same, new) ↦ record {
        calls = [];
        log = sym (append-nil s.log);
        flow =
            ap (λ (l : Local). l.pending_io) new
            ∙ ap (λ (l : Local). l.pending_io ++ []) (sym (same ∙ e));
        depth =
            ap (λ (l : Local). l.lock_depth) (same ∙ e)
            ∙ ap (λ (l : Local). l.lock_depth) (sym new);
        outside = tt;
      }
      | inr (apart, new) ↦ IsStep-same u refl new (stay u s)
    ]

teardown-kept :
    (u os_tid t : ℕ) (s : Dpor)
    → (u == t) ≡ false
    → (teardown_dpor_tls os_tid t s).locals u ≡ s.locals u
unfolding teardown_dpor_tls
teardown-kept u os_tid t s e = rw e refl

leaves-IsStep :
    (u os_tid t : ℕ) (s : Dpor) → (u == t) ≡ false → IsStep u s (teardown_dpor_tls os_tid t s) []
unfolding teardown_dpor_tls
leaves-IsStep u os_tid t s e = IsStep-same u refl (teardown-kept u os_tid t s e) (stay u s)

-- What the end of a thread leaves of its events.
teardown-drops :
    (u os_tid : ℕ) (s : Dpor)
    → (io_of u (teardown_dpor_tls os_tid u s).log ≡ io_of u s.log)
      × (((teardown_dpor_tls os_tid u s).locals u).pending_io ≡ [])
unfolding teardown_dpor_tls
teardown-drops u os_tid s = (refl, rw ((nat_beq_iff u u).1 refl) refl)

not_left : (b left : Bool) → (if b then true else left) ≡ false → (b ≡ false) × (left ≡ false)
not_left true left h = cc h
not_left false left h = (refl, h)

module _ {engine : Engine} {object_key : String → ℕ} {n : ℕ} {recorder : Bool}
    {bridge : Option Bridge} where
  Run-IsBalanced :
      {s : Dpor} {granted : List ℕ} {came : ℕ → List (ℕ × String)} (u : ℕ)
      (r : Run engine object_key n recorder bridge s granted came)
      → has_left u r ≡ false
      → IsBalanced u s (came u)
  unfolding init
  Run-IsBalanced u Run.start h =
      let b : IsBalanced u (schedule_next engine (blank n recorder bridge)).1 [] =
        still u (next-IsStep u engine (blank n recorder bridge))
          (record { flow = refl; depth = refl; outside = tt }) in
      record { flow = b.flow; depth = b.depth; outside = b.outside }
  Run-IsBalanced u (Run.sync_event {s} event t obj r) h =
      still u (sync-IsStep u event t obj s) (Run-IsBalanced u r h)
  Run-IsBalanced u (Run.io_event {s} t resource kind r) h =
      IsStep-IsBalanced u (io-IsStep u object_key t resource kind s) (Run-IsBalanced u r h)
  Run-IsBalanced u (Run.collected {s} flushed t r) h =
      IsStep-IsBalanced u (collect-IsStep u object_key flushed t s) (Run-IsBalanced u r h)
  Run-IsBalanced u (Run.looked {s} {came = came} t place e r) h =
      subst (λ (x : Answer × Dpor). IsBalanced u x.1 (came u)) e
        (still u (look-IsStep u engine t place s) (Run-IsBalanced u r h))
  Run-IsBalanced u (Run.expired {s} {came = came} t e r) h =
      subst (λ (x : Answer × Dpor). IsBalanced u x.1 (came u)) e
        (still u (time_out-IsStep u engine t s) (Run-IsBalanced u r h))
  Run-IsBalanced u (Run.done {s} t r) h =
      still u (mark_done-IsStep u engine t s) (Run-IsBalanced u r h)
  Run-IsBalanced u (Run.failed {s} e r) h = still u (error-IsStep u e s) (Run-IsBalanced u r h)
  Run-IsBalanced u (Run.enters {s} os_tid t e r) h =
      still u (enters-IsStep u os_tid t s e) (Run-IsBalanced u r h)
  Run-IsBalanced u (Run.leaves {s} os_tid t r) h =
      let (other, inside) = not_left (u == t) (has_left u r) h in
      still u (leaves-IsStep u os_tid t s other) (Run-IsBalanced u r inside)

  -- In every run that a thread's end is no part of: the I/O events that were reported to the engine,
  -- followed by those pending, are the events that came to the thread, in order; its depth is the
  -- number of locks that it holds by the events told to the engine; each I/O event was reported at
  -- depth zero; and the thread's end reports nothing more, and drops the events still pending.
  pub Run-delivers :
      {s : Dpor} {granted : List ℕ} {came : ℕ → List (ℕ × String)} (u : ℕ)
      (r : Run engine object_key n recorder bridge s granted came)
      → has_left u r ≡ false
      → (io_of u s.log ++ (s.locals u).pending_io ≡ came u)
        × (depth_of u 0 s.log ≡ (s.locals u).lock_depth)
        × OutsideLocks u 0 s.log
        × ((os_tid : ℕ)
            → (io_of u (teardown_dpor_tls os_tid u s).log ≡ io_of u s.log)
              × (((teardown_dpor_tls os_tid u s).locals u).pending_io ≡ []))
  Run-delivers {s} u r h =
      let b = Run-IsBalanced u r h in
      (b.flow, b.depth, b.outside, λ os_tid. teardown-drops u os_tid s)
