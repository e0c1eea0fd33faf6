-- ===== src/CoopLock/Edits.antt =====
-- CooperativeLock: its edits of the wait-for graph.
use mathlib.Core.Path.{subst}
use frontrun.Prelude.{
  ℕ, ◌≡◌, refl, sym, ap, ◌∙◌, Bool, true, false, ◌||◌, ◌&&◌, not, Option, none, some, List, [], ◌∷◌,
  ◌++◌, is_some, nat_beq, arith, Option-cases, inl, inr,
}
use frontrun.WaitGraph.{
  Node, Graph, thread, lock, add_waiting, remove_waiting, add_holding, remove_holding,
}
use frontrun.WaitGraph.Edges.{registrations_edges}
use frontrun.CoopLock.{
  Lock, Event, release, report, on_graph, set_owner_and_report, take_lock, after_search, begin_wait,
  disown,
}
use frontrun.CoopLock.System.{Phase, outside, looping, phase_of, update, edge}

abbrev pub owns : Option ℕ → ℕ → Bool
owns none t = false
owns (some u) t = nat_beq u t

abbrev pub is_looping : Phase → Bool
is_looping looping = true
is_looping _ = false

-- The edges of the lock in the graph, and the real lock, agree with the owner and the loops.
pub record Mirror (id : ℕ) (w : Lock) (ph : ℕ → Phase) : Type 0 where
  pub installed : is_some w.graph ≡ true
  pub held : w.locked ≡ is_some w.owner_thread_id
  pub holding : (t : ℕ) → edge w (lock id) (thread t) ≡ owns w.owner_thread_id t
  pub waiting : (t : ℕ) → edge w (thread t) (lock id) ≡ is_looping (ph t)

-- A new graph of a lock, by its edges at this lock.
edges_of :
    (t id u : ℕ) (w : Lock)
    → is_some w.graph ≡ true
    → (edge (on_graph (remove_waiting t id) w) (lock id) (thread u) ≡ edge w (lock id) (thread u))
      × (edge (on_graph (remove_waiting t id) w) (thread u) (lock id)
          ≡ (not (nat_beq t u) && edge w (thread u) (lock id)))
      × (edge (on_graph (add_holding t id) w) (lock id) (thread u)
          ≡ (nat_beq t u || edge w (lock id) (thread u)))
      × (edge (on_graph (add_holding t id) w) (thread u) (lock id) ≡ edge w (thread u) (lock id))
      × (edge (on_graph (remove_holding t id) w) (lock id) (thread u)
          ≡ (not (nat_beq t u) && edge w (lock id) (thread u)))
      × (edge (on_graph (remove_holding t id) w) (thread u) (lock id) ≡ edge w (thread u) (lock id))
edges_of t id u w h = elim (Option-cases w.graph) [
  | inl e ↦ absurd (ground arith)
  | inr (g, e) ↦ ground (
    arith,
    registrations_edges t id (lock id) (thread u) g,
    registrations_edges t id (thread u) (lock id) g,
  )
]

pub report-Mirror :
    {id : ℕ} {w : Lock} {ph : ℕ → Phase} (reports : Bool) (e : Event)
    → Mirror id w ph
    → Mirror id (report reports e w) ph
unfolding report
report-Mirror true e m = record {
  installed = m.installed;
  held = m.held;
  holding = m.holding;
  waiting = m.waiting;
}
report-Mirror false e m = m

on_graph-same :
    (f : Graph → Graph) (w : Lock)
    → (is_some (on_graph f w).graph ≡ is_some w.graph)
      × ((on_graph f w).locked ≡ w.locked)
      × ((on_graph f w).owner_thread_id ≡ w.owner_thread_id)
on_graph-same f w = ground arith

-- A free lock is taken by a thread that has no waiting edge.
pub take_lock-Mirror :
    {id : ℕ} {w : Lock} {ph : ℕ → Phase} (reports : Bool) (t : ℕ)
    → Mirror id w ph
    → w.locked ≡ false
    → is_looping (ph t) ≡ false
    → Mirror id (take_lock id reports (some t) w) (update ph t outside)
unfolding set_owner_and_report
take_lock-Mirror {id} {w} {ph} reports t m unlocked idle =
    report-Mirror reports Event.lock_acquire (record {
      installed = ground (
        arith,
        m.installed,
        on_graph-same (add_holding t id) (record w { locked = true; owner_thread_id = some t }),
      );
      held = ground (
        arith,
        on_graph-same (add_holding t id) (record w { locked = true; owner_thread_id = some t }),
      );
      holding = λ u. ground (
        arith,
        m.held,
        m.holding u,
        on_graph-same (add_holding t id) (record w { locked = true; owner_thread_id = some t }),
        edges_of t id u (record w { locked = true; owner_thread_id = some t }) m.installed,
      );
      waiting = λ u. ground (
        arith,
        m.waiting u,
        edges_of t id u (record w { locked = true; owner_thread_id = some t }) m.installed,
      );
    })

-- A thread that leaves its loop, or was never in it, takes its waiting edge back.
pub leave_loop-Mirror :
    {id : ℕ} {w : Lock} {ph : ℕ → Phase} (t : ℕ) (p : Phase)
    → Mirror id w ph
    → is_looping p ≡ false
    → Mirror id (on_graph (remove_waiting t id) w) (update ph t p)
leave_loop-Mirror {id} {w} {ph} t p m out = record {
  installed = ground (arith, m.installed, on_graph-same (remove_waiting t id) w);
  held = ground (arith, m.held, on_graph-same (remove_waiting t id) w);
  holding = λ u.
      ground
        (arith, m.holding u, on_graph-same (remove_waiting t id) w, edges_of t id u w m.installed);
  waiting = λ u. ground (arith, m.waiting u, edges_of t id u w m.installed);
}

pub same_phase :
    {id : ℕ} {w : Lock} {ph ph' : ℕ → Phase}
    → ((u : ℕ) → is_looping (ph u) ≡ is_looping (ph' u))
    → Mirror id w ph
    → Mirror id w ph'
same_phase same m = record {
  installed = m.installed;
  held = m.held;
  holding = m.holding;
  waiting = λ u. m.waiting u ∙ same u;
}

-- With the waiting edge added the thread is as good as in its loop.
add_waiting-Mirror :
    {id : ℕ} {w : Lock} {ph : ℕ → Phase} (t : ℕ) (g : Graph)
    → Mirror id w ph
    → w.graph ≡ some g
    → Mirror id (record w { graph = some (add_waiting t id g).0 }) (update ph t looping)
add_waiting-Mirror {id} {w} {ph} t g m e = record {
  installed = refl;
  held = m.held;
  holding = λ u. ground (arith, m.holding u, registrations_edges t id (lock id) (thread u) g);
  waiting = λ u. ground (arith, m.waiting u, registrations_edges t id (thread u) (lock id) g);
}

after_search-Mirror :
    {id : ℕ} {w : Lock} (ph : ℕ → Phase) (reports : Bool) (t : ℕ) (o : Option (Option (List Node)))
    → Mirror id w (update ph t looping)
    → Mirror id
        (after_search id reports t o w).1
        (update ph t (phase_of (after_search id reports t o w).0))
after_search-Mirror ph reports t (some (some cycle)) m =
    same_phase (λ u. ground arith) (leave_loop-Mirror t outside m refl)
after_search-Mirror ph reports t none m = report-Mirror reports Event.lock_wait m
after_search-Mirror ph reports t (some none) m = report-Mirror reports Event.lock_wait m

pub begin_wait-Mirror :
    {id : ℕ} {w : Lock} {ph : ℕ → Phase} (reports : Bool) (t : ℕ)
    → Mirror id w ph
    → Mirror id (begin_wait id reports t w).1 (update ph t (phase_of (begin_wait id reports t w).0))
unfolding begin_wait
begin_wait-Mirror {id} {w} {ph} reports t m = elim (Option-cases w.graph) [
  | inl e ↦ absurd (ground (arith, m.installed))
  | inr (g, e) ↦
      rw (e, begin_wait)
        (after_search-Mirror ph reports t (add_waiting t id g).1 (add_waiting-Mirror t g m e))
]

pub spin_take-Mirror :
    {id : ℕ} {w : Lock} {ph : ℕ → Phase} (reports : Bool) (t : ℕ)
    → Mirror id w ph
    → w.locked ≡ false
    → Mirror id
        (report reports Event.lock_acquire
          (record (on_graph
            (add_holding t id)
            (on_graph (remove_waiting t id) (record w { locked = true }))) {
              owner_thread_id = some t;
            }))
        (update ph t outside)
spin_take-Mirror {id} {w} {ph} reports t m unlocked =
    report-Mirror reports Event.lock_acquire (record {
      installed = ground (arith, m.installed, same₁, same₂);
      held = ground (arith, same₁, same₂);
      holding = λ u. ground (
        arith,
        m.held,
        m.holding u,
        edges_of t id u w₁ m.installed,
        edges_of t id u w₂ installed₂,
      );
      waiting = λ u.
          ground
            (arith, m.waiting u, edges_of t id u w₁ m.installed, edges_of t id u w₂ installed₂);
    })
  where
    w₁ : Lock
    w₁ = record w { locked = true }

    w₂ : Lock
    w₂ = on_graph (remove_waiting t id) w₁

    same₁ :
        (is_some w₂.graph ≡ is_some w.graph)
        × (w₂.locked ≡ true)
        × (w₂.owner_thread_id ≡ w.owner_thread_id)
    same₁ = on_graph-same (remove_waiting t id) w₁

    same₂ :
        (is_some (on_graph (add_holding t id) w₂).graph ≡ is_some w₂.graph)
        × ((on_graph (add_holding t id) w₂).locked ≡ w₂.locked)
        × ((on_graph (add_holding t id) w₂).owner_thread_id ≡ w₂.owner_thread_id)
    same₂ = on_graph-same (add_holding t id) w₂

    installed₂ : is_some w₂.graph ≡ true
    installed₂ = same₁.0 ∙ m.installed

no_owner-Mirror :
    {id : ℕ} {w : Lock} {ph : ℕ → Phase}
    → Mirror id w ph
    → w.owner_thread_id ≡ none
    → Mirror id (record w { locked = false; owner_thread_id = none }) ph
no_owner-Mirror m e = record {
  installed = m.installed;
  held = refl;
  holding = λ u. m.holding u ∙ ap (λ o. owns o u) e;
  waiting = m.waiting;
}

drop_owner-Mirror :
    {id : ℕ} {w : Lock} {ph : ℕ → Phase} (t : ℕ) (es : List Event)
    → Mirror id w ph
    → w.owner_thread_id ≡ some t
    → Mirror id
        (on_graph
          (remove_holding t id)
          (record w { locked = false; owner_thread_id = none; events = es }))
        ph
drop_owner-Mirror {id} {w} {ph} t es m e = record {
  installed = ground (arith, m.installed, same);
  held = ground (arith, same);
  holding = λ u. ground (arith, m.holding u, same, edges_of t id u w' m.installed);
  waiting = λ u. ground (arith, m.waiting u, edges_of t id u w' m.installed);
}
  where
    w' : Lock
    w' = record w { locked = false; owner_thread_id = none; events = es }

    same :
        (is_some (on_graph (remove_holding t id) w').graph ≡ is_some w'.graph)
        × ((on_graph (remove_holding t id) w').locked ≡ w'.locked)
        × ((on_graph (remove_holding t id) w').owner_thread_id ≡ w'.owner_thread_id)
    same = on_graph-same (remove_holding t id) w'

released-Mirror :
    {id : ℕ} {w : Lock} {ph : ℕ → Phase} (r : Bool) (t : ℕ)
    → Mirror id w ph
    → w.owner_thread_id ≡ some t
    → Mirror id
        (disown id r
          (some t)
          (record (report r Event.lock_release (record w { owner_thread_id = none })) {
            locked = false;
          }))
        ph
unfolding report
released-Mirror {w = w} true t m e = drop_owner-Mirror t (w.events ++ (Event.lock_release ∷ [])) m e
released-Mirror {w = w} false t m e = drop_owner-Mirror t w.events m e

abbrev unlocked_by : Bool → Lock → Lock
unlocked_by reports w =
    record (report reports Event.lock_release (record w { owner_thread_id = none })) {
      locked = false;
    }

release_held :
    (id : ℕ) (reports : Bool) (w : Lock)
    → w.locked ≡ true
    → (release id reports w).1 ≡ disown id reports w.owner_thread_id (unlocked_by reports w)
unfolding release
release_held id reports w e = ground arith

pub release-Mirror :
    {id : ℕ} {w : Lock} {ph : ℕ → Phase} (reports : Bool)
    → Mirror id w ph
    → Mirror id (release id reports w).1 ph
unfolding release
release-Mirror {id} {w} {ph} reports m = elim (Option-cases w.owner_thread_id) [
  | inl e ↦
      rw (m.held ∙ ap is_some e, release)
        (report-Mirror reports Event.lock_release (no_owner-Mirror m e))
  | inr (t, e) ↦
      subst (λ w'. Mirror id w' ph)
        (sym (
          release_held id reports w (m.held ∙ ap is_some e)
          ∙ ap (λ o. disown id reports o (unlocked_by reports w)) e))
        (released-Mirror reports t m e)
]
