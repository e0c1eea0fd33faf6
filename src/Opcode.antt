-- ===== src/Opcode.antt =====
-- frontrun/bytecode.py, class OpcodeScheduler: which thread may execute its next opcode.
-- Every method runs under the condition's lock, so a call is one step up to its return or its wait.
pub mod Loop
pub mod Effect
pub mod Follow
pub mod Runs
pub mod Invariant
pub mod Grants
pub mod Progress
mod Tests
use frontrun.Prelude.{
  ℕ, zero, suc, ◌+◌, ◌*◌, Bool, true, false, ◌||◌, Option, none, some, List, [], ◌∷◌, ◌++◌, not,
  nat_eq, ◌==◌, if◌then◌else◌, ltb, leb, length, get_elem?, keep, contains, add, is_some,
}

-- The exception kept in `_error`: the TimeoutError with the values that its message shows, or one
-- that a thread reported.
pub data Failure : Type 0 where
  deadlock : (needed index size : ℕ) → Failure
  reported : ℕ → Failure

pub record Scheduler : Type 0 where
  pub schedule : List ℕ
  pub num_threads : ℕ
  pub max_ops : ℕ
  pub index : ℕ
  pub finished : Bool
  pub error : Option Failure
  pub threads_done : List ℕ

-- `max_ops if max_ops > 0 else len(schedule) * 10 + 10000`
abbrev pub op_cap : List ℕ → ℕ → ℕ
op_cap schedule max_ops = if ltb 0 max_ops then max_ops else length schedule * 10 + 10000

unfoldable pub init : List ℕ → ℕ → ℕ → Scheduler
init schedule num_threads max_ops = record {
  schedule = schedule;
  num_threads = num_threads;
  max_ops = op_cap schedule max_ops;
  index = 0;
  finished = false;
  error = none;
  threads_done = [];
}

abbrev pub range_from : ℕ → ℕ → List ℕ
range_from i zero = []
range_from i (suc n) = i ∷ range_from (suc i) n

abbrev pub is_active : List ℕ → ℕ → Bool
is_active done t = not (contains t done)

-- `[t for t in range(self.num_threads) if t not in self._threads_done]`
unfoldable pub active : Scheduler → List ℕ
active s = keep (is_active s.threads_done) (range_from 0 s.num_threads)

abbrev pub extend_by : Scheduler → List ℕ → Bool × Scheduler
extend_by s [] = (false, s)
extend_by s (t ∷ ts) = (true, record s { schedule = s.schedule ++ (t ∷ ts) })

unfoldable pub extend_schedule : Scheduler → Bool × Scheduler
extend_schedule s = if leb s.max_ops s.index then (false, s) else extend_by s (active s)

-- How one round of `while True` ends: by `return True`, by `return False`, by `continue`, at the
-- wait, or by the IndexError of a list access out of range.
pub data Round : Type 0 where
  granted refused again parked index_error : Round

abbrev pub advance : Scheduler → Scheduler
advance s = record s { index = s.index + 1 }

-- `if self._index >= len(self.schedule): if not self._extend_schedule(): …`
unfoldable pub ensure : Scheduler → Bool × Scheduler
ensure s = if leb (length s.schedule) s.index then extend_schedule s else (true, s)

-- The tests on `scheduled_tid`
abbrev pub decide_turn : ℕ → Scheduler → Option ℕ → Round × Scheduler
decide_turn t s none = (index_error, s)
decide_turn t s (some tid) =
    if contains tid s.threads_done
    then (again, advance s)
    else if tid == t
    then (granted, advance s)
    else (parked, s)

abbrev pub after_ensure : ℕ → Bool × Scheduler → Round × Scheduler
after_ensure t (false, s) = (refused, record s { finished = true })
after_ensure t (true, s) = decide_turn t s (get_elem? s.schedule s.index)

unfoldable pub round : ℕ → Scheduler → Round × Scheduler
round t s = if s.finished || is_some s.error then (refused, s) else after_ensure t (ensure s)

abbrev pub go_on :
    Round × Scheduler → (Scheduler → Option (Round × Scheduler)) → Option (Round × Scheduler)
go_on (again, s) next = next s
go_on (r, s) next = some (r, s)

-- The loop of `wait_for_turn` up to its return or its wait. `none` means that the fuel ran out.
unfoldable pub wait_for_turn : ℕ → ℕ → Scheduler → Option (Round × Scheduler)
wait_for_turn zero t s = none
wait_for_turn (suc fuel) t s = go_on (round t s) (wait_for_turn fuel t)

-- The wait ends by its timeout: `needed = self.schedule[self._index]` and what follows.
unfoldable pub time_out : Scheduler → Round × Scheduler
time_out s = elim (get_elem? s.schedule s.index) [
  | none ↦ (index_error, s)
  | some needed ↦
      if contains needed s.threads_done
      then (again, s)
      else (refused, record s { error = some (deadlock needed s.index (length s.schedule)) })
]

unfoldable pub mark_done : ℕ → Scheduler → Scheduler
mark_done t s = record s { threads_done = add t s.threads_done }

-- The first error is kept.
unfoldable pub report_error : Failure → Scheduler → Scheduler
report_error e s = elim s.error [ none ↦ record s { error = some e } | some f ↦ s ]

pub had_error : Scheduler → Bool
had_error s = is_some s.error
