-- ===== src/Markers/Order.antt =====
-- Which markers the coordinator lets pass, and when.
use frontrun.Prelude.{
  suc, ◌+◌, ◌≤◌, ◌≡◌, refl, ap, sym, ◌∙◌, Bool, true, Option, none, some, List, [], String,
  string_eq, length, get_elem?, ◌⊎◌, take, take-suc, get_elem?-lt, arith, inl, inr, Option-cases,
  by_test, ◌&&◌, nat_beq,
}
use frontrun.Markers.{
  Step, Coordinator, Outcome, init, give_back, is_finished, matches, advance, decide_turn,
  wait_for_turn, time_out, report_error,
}
use frontrun.Markers.Runs.{
  note, note_late, passes, Move, turn, timeout, fail, lock, Run, here, next,
}

matches-eq : (s t : Step) → matches s t.execution_name t.marker_name ≡ true → s ≡ t
matches-eq s t h = ground (
  arith,
  string_eq.beq_iff s.execution_name t.execution_name,
  string_eq.beq_iff s.marker_name t.marker_name,
)

matches_refl : (s : Step) → matches s s.execution_name s.marker_name ≡ true
matches_refl s = ground (
  arith,
  string_eq.beq_iff s.execution_name s.execution_name,
  string_eq.beq_iff s.marker_name s.marker_name,
)

-- A call leaves the schedule alone, and takes a step only where that step is its own.
abbrev Takes : Step → Coordinator → Coordinator → Type 0
Takes s c c' =
    (c'.steps ≡ c.steps)
    × ((c'.current_step ≡ c.current_step)
        ⊎ (c'.current_step ≡ c.current_step + 1) × (get_elem? c.steps c.current_step ≡ some s))

give_back-same :
    (reacquire : Bool) (c : Coordinator)
    → ((give_back reacquire c).1.steps ≡ c.steps)
      × ((give_back reacquire c).1.current_step ≡ c.current_step)
unfolding give_back
give_back-same reacquire c = ground arith

decide_turn-Takes :
    (s : Step) (reacquire : Bool) (c : Coordinator) (o : Option Step)
    → get_elem? c.steps c.current_step ≡ o
    → Takes s c (decide_turn s.execution_name s.marker_name reacquire c o).1
decide_turn-Takes s reacquire c none e = (refl, inl refl)
decide_turn-Takes s reacquire c (some t) e =
    ground (arith, matches-eq t s, give_back-same reacquire (advance c))

wait_for_turn-Takes :
    (s : Step) (reacquire : Bool) (c : Coordinator)
    → Takes s c (wait_for_turn s.execution_name s.marker_name reacquire c).1
unfolding wait_for_turn
wait_for_turn-Takes s reacquire c = ground (
  arith,
  decide_turn-Takes s reacquire c (get_elem? c.steps c.current_step) refl,
  give_back-same reacquire c,
  give_back-same reacquire (record c { completed = true }),
)

time_out-same :
    (reacquire : Bool) (c : Coordinator)
    → ((time_out reacquire c).1.steps ≡ c.steps)
      × ((time_out reacquire c).1.current_step ≡ c.current_step)
unfolding time_out give_back
time_out-same reacquire c = ground arith

abbrev Ordered : List Step → Coordinator → List Step → Type 0
Ordered steps c log =
    (c.steps ≡ steps) × (log ≡ take c.current_step steps) × (c.current_step ≤ length steps)

note-Ordered :
    (steps : List Step) (s : Step) (c c' : Coordinator) (log : List Step)
    → Takes s c c'
    → Ordered steps c log
    → Ordered steps c' (note c c' s log)
note-Ordered steps s c c' log (same, inl e) (q, l, le) =
    (same ∙ q, ground (arith, ap (λ k. take k steps) e), omega arith)
note-Ordered steps s c c' log (same, inr (e, now)) (q, l, le) =
    let now' : get_elem? steps c.current_step ≡ some s = rw (← q) now in
    let e' : c'.current_step ≡ suc c.current_step = omega arith in
    (
      same ∙ q,
      ground (arith, ap (λ k. take k steps) e', take-suc steps c.current_step s now'),
      omega (arith, get_elem?-lt steps c.current_step s now'),
    )

-- A coordinator that has finished stays so, and a call that returns and takes no step finds it
-- finished, or makes it so.
wait_for_turn-is_finished :
    (name marker : String) (reacquire : Bool) (c : Coordinator)
    → let w = wait_for_turn name marker reacquire c in
      (is_finished c ≡ true → is_finished w.1 ≡ true)
      × (passes w.0 && nat_beq w.1.current_step c.current_step ≡ true → is_finished w.1 ≡ true)
unfolding wait_for_turn give_back is_finished
wait_for_turn-is_finished name marker reacquire c =
    elim (Option-cases (get_elem? c.steps c.current_step)) [
      | inl e ↦ ground (arith, e)
      | inr (s, e) ↦ ground (arith, e)
    ]

time_out-is_finished :
    (reacquire : Bool) (c : Coordinator)
    → let w = time_out reacquire c in
      (is_finished c ≡ true → is_finished w.1 ≡ true)
      × (passes w.0 && nat_beq w.1.current_step c.current_step ≡ true → is_finished w.1 ≡ true)
unfolding time_out give_back is_finished
time_out-is_finished reacquire c = elim (Option-cases (get_elem? c.steps c.current_step)) [
  | inl e ↦ ground (arith, e)
  | inr (s, e) ↦ ground (arith, e)
]

-- No marker was passed out of turn, or the coordinator has finished.
abbrev InTurn : Coordinator → List Step → Type 0
InTurn c late = (late ≡ []) ⊎ (is_finished c ≡ true)

note_late-InTurn :
    (o : Outcome) (c c' : Coordinator) (s : Step) (late : List Step)
    → (is_finished c ≡ true → is_finished c' ≡ true)
    → (passes o && nat_beq c'.current_step c.current_step ≡ true → is_finished c' ≡ true)
    → InTurn c late
    → InTurn c' (note_late o c c' s late)
note_late-InTurn o c c' s late stays finds h =
    by_test (λ l. InTurn c' l) (passes o && nat_beq c'.current_step c.current_step)
      (λ e. inr (finds e)) (λ e. elim h [ inl n ↦ inl n | inr f ↦ inr (stays f) ])

Move-Ordered :
    {steps : List Step} {c c' : Coordinator} {log log' late late' : List Step}
    → Move c log late c' log' late'
    → Ordered steps c log × InTurn c late
    → Ordered steps c' log' × InTurn c' late'
Move-Ordered {steps} (turn {c} {log} {late} s reacquire) (h, k) =
    let w = wait_for_turn s.execution_name s.marker_name reacquire c in
    let (stays, finds) = wait_for_turn-is_finished s.execution_name s.marker_name reacquire c in
    (
      note-Ordered steps s c w.1 log (wait_for_turn-Takes s reacquire c) h,
      note_late-InTurn w.0 c w.1 s late stays finds k,
    )
Move-Ordered {steps} (timeout {c} {log} {late} s reacquire) ((q, l, le), k) =
    let w = time_out reacquire c in
    let (same, at) = time_out-same reacquire c in
    let (stays, finds) = time_out-is_finished reacquire c in
    (
      (same ∙ q, l ∙ ap (λ k. take k steps) (sym at), omega arith),
      note_late-InTurn w.0 c w.1 s late stays finds k,
    )
Move-Ordered (fail e) (h, k) = unfold report_error is_finished in (h, inr (ground arith))
Move-Ordered (lock held) h = unfold is_finished in h

Run-kept :
    {steps : List Step} {c : Coordinator} {log late : List Step}
    → Run steps c log late
    → Ordered steps c log × InTurn c late
Run-kept {steps} here = unfold init in ((refl, refl, omega arith), inl refl)
Run-kept (next r m) = Move-Ordered m (Run-kept r)

-- In every run the markers passed by the calls that advance the schedule are its first steps, in its
-- order and each once; their number is the coordinator's position, which never leaves the schedule;
-- and a marker was passed by a call that returns without advancing only where the coordinator has
-- completed or has an error.
pub Run-take :
    {steps : List Step} {c : Coordinator} {log late : List Step}
    → Run steps c log late
    → (c.steps ≡ steps)
      × (log ≡ take c.current_step steps)
      × (c.current_step ≤ length steps)
      × ((late ≡ []) ⊎ (is_finished c ≡ true))
Run-take r = let ((q, l, le), k) = Run-kept r in (q, l, le, k)
