-- ===== src/CoopRlock/Fields.antt =====
-- CooperativeRLock: what the steps do to the real lock, the owner and the count.
use frontrun.Prelude.{
  ℕ, ◌≡◌, ◌≢◌, refl, ap, ◌∙◌, Bool, true, false, Option, none, some, List, if◌then◌else◌, is_some,
  ltb, Option-cases, inl, inr,
}
use frontrun.WaitGraph.{Node, Graph, add_waiting}
use frontrun.CoopRlock.{
  Rlock, Event, lock_release, acquired, is_owned, report, on_graph, set_owner_and_report, take_lock,
  after_search, wait_on, slow_path, disown, let_go,
}

-- The fields that matter here, and what they say.
abbrev pub Fields : Type 0
Fields = Bool × Option ℕ × ℕ

abbrev pub fields : Rlock → Fields
fields w = (w.locked, w.owner, w.count)

abbrev pub depth_of : Option ℕ → ℕ → ℕ → ℕ
depth_of o n t = if is_owned t o then n else 0

abbrev pub Fits : Fields → (ℕ → ℕ) → Type 0
Fits (l, o, n) d = (l ≡ is_some o) × (l ≡ ltb 0 n) × ((t : ℕ) → d t ≡ depth_of o n t)

pub fields-report : (r : Bool) (e : Event) (w : Rlock) → fields (report r e w) ≡ fields w
unfolding report
fields-report true e w = refl
fields-report false e w = refl

pub fields-on_graph : (f : Graph → Graph) (w : Rlock) → fields (on_graph f w) ≡ fields w
unfolding on_graph
fields-on_graph f w = elim (Option-cases w.graph) [ inl e ↦ rw e | inr (g, e) ↦ rw e ]

pub fields-take_lock :
    (id : ℕ) (r : Bool) (me : ℕ) (ctx : Option ℕ) (w : Rlock)
    → fields (take_lock id r me ctx w) ≡ (true, some me, 1)
unfolding set_owner_and_report
fields-take_lock id r me none w = fields-report r _ _
fields-take_lock id r me (some t) w = fields-report r _ _ ∙ fields-on_graph _ _

pub fields-slow_path :
    (id : ℕ) (r : Bool) (ctx : Option ℕ) (w : Rlock)
    → (fields (slow_path id r ctx w).1 ≡ fields w) × ((slow_path id r ctx w).0 ≢ acquired)
fields-slow_path id r none w = (refl, λ h. cc)
fields-slow_path id r (some t) w = waits w.graph
  where
    searched :
        (o : Option (Option (List Node))) (v : Rlock)
        → fields v ≡ fields w
        → (fields (after_search id r t o v).1 ≡ fields w) × ((after_search id r t o v).0 ≢ acquired)
    searched (some (some cycle)) v e = (fields-on_graph _ v ∙ e, λ h. cc)
    searched (some none) v e = (fields-report r _ v ∙ e, λ h. cc)
    searched none v e = (fields-report r _ v ∙ e, λ h. cc)

    waits :
        (g : Option Graph)
        → (fields (wait_on id r t w g).1 ≡ fields w) × ((wait_on id r t w g).0 ≢ acquired)
    waits none = (fields-report r _ w, λ h. cc)
    waits (some g) =
        searched (add_waiting t id g).1 (record w { graph = some (add_waiting t id g).0 }) refl

pub fields-let_go :
    (id : ℕ) (r : Bool) (w : Rlock) → fields (let_go id r w) ≡ (false, none, w.count)
fields-let_go id r w = disowned w.owner_thread_id
  where
    dropped :
        fields (record (report r lock_release (record w { owner = none; owner_thread_id = none })) {
          locked = false;
        })
        ≡ (false, none, w.count)
    dropped =
        ap (λ f. (false, f.1, f.2))
          (fields-report r lock_release (record w { owner = none; owner_thread_id = none }))

    disowned :
        (o : Option ℕ)
        → fields (
            disown id r o
              (record (report r lock_release (record w { owner = none; owner_thread_id = none })) {
                locked = false;
              }))
          ≡ (false, none, w.count)
    disowned none = dropped
    disowned (some t) = fields-on_graph _ _ ∙ dropped
