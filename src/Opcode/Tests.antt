-- ===== src/Opcode/Tests.antt =====
-- A run of the opcode scheduler, and the theorems at its states.
use frontrun.Prelude.{
  ℕ, ◌+◌, ◌≤◌, ◌≡◌, refl, ◌≢◌, ◌↔◌, ◌⊎◌, false, none, some, List, [], ◌∷◌, length, take, contains,
  get_elem?, add, nat_eq, arith,
}
use frontrun.Opcode.{
  Scheduler, init, op_cap, active, advance, extend_schedule, Round, granted, refused, parked,
  index_error, ensure, round, wait_for_turn, time_out, mark_done,
}
use frontrun.Opcode.Runs.{turn, done, Run, here, next}
use frontrun.Opcode.Follow.{Follows}
use frontrun.Opcode.Loop.{wait_for_turn-returns}
use frontrun.Opcode.Grants.{Run-Follows, Run-bounded, time_out-index_error}
use frontrun.Opcode.Progress.{wait_for_turn-parked}

-- The schedule gives a turn to thread 0 and one to thread 1.
abbrev first : List ℕ
first = 0 ∷ 1 ∷ []

abbrev state : List ℕ → ℕ → List ℕ → Scheduler
state schedule index done_threads = record {
  schedule = schedule;
  num_threads = 2;
  max_ops = 20;
  index = index;
  finished = false;
  error = none;
  threads_done = done_threads;
}

-- Both given entries are granted, thread 1 ends, and an extension gives thread 0 a turn.
run : Run first 2 20 (state (0 ∷ 1 ∷ 0 ∷ []) 3 (1 ∷ [])) (0 ∷ 1 ∷ 0 ∷ [])
unfolding wait_for_turn round ensure extend_schedule active init mark_done contains add
run =
    next
      (next
        (next {s' = state first 2 []} (next {s' = state first 1 []} here (turn 5 0 granted refl))
          (turn 5 1 granted refl))
        (done 1))
      (turn 5 0 granted refl)

Run-Follows_example :
    Follows (1 ∷ []) (0 ∷ 1 ∷ 0 ∷ []) (0 ∷ 1 ∷ 0 ∷ []) × (3 ≤ 3) × (take 2 (0 ∷ 1 ∷ 0 ∷ []) ≡ first)
Run-Follows_example = Run-Follows run

Run-bounded_example : (3 ≤ length first) ⊎ (3 ≤ op_cap first 20 + 2)
Run-bounded_example = Run-bounded run

wait_for_turn-returns_example :
    (r : Round) × (s : Scheduler) × (wait_for_turn 3 1 (state first 0 []) ≡ some (r, s))
    × ((r ≡ granted) ⊎ (r ≡ refused) ⊎ (r ≡ parked))
wait_for_turn-returns_example = wait_for_turn-returns 1 (state first 0 []) (omega arith)

-- Thread 0 waits for thread 1.
wait_for_turn-parked_example :
    (u : ℕ) × (get_elem? first 1 ≡ some u)
    × (u ≢ 0)
    × (round u (state first 1 []) ≡ (granted, advance (state first 1 [])))
unfolding wait_for_turn round ensure contains
wait_for_turn-parked_example = wait_for_turn-parked 1 0 (state first 1 []) (state first 1 []) refl

time_out-index_error_example :
    ((time_out (state (0 ∷ 1 ∷ 0 ∷ []) 3 (1 ∷ []))).0 ≡ index_error) ↔ (◌≡◌ {A = ℕ} 3 3)
time_out-index_error_example = time_out-index_error run
