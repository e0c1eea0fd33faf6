-- ===== src/AsyncLoop.antt =====
-- frontrun/async_scheduler.py, InterleavedLoop, with the policy of frontrun/async_bytecode.py,
-- AwaitScheduler: tasks of one event loop take turns by a list of task numbers.
pub mod System
pub mod Counts
pub mod Recount
pub mod Invariant
pub mod Deadlock
mod Tests
use frontrun.Prelude.{
  ℕ, zero, suc, ◌+◌, ◌-◌, Bool, true, false, ◌&&◌, ◌||◌, Option, none, some, List, [], ◌∷◌, nat_eq,
  ◌==◌, if◌then◌else◌, length, leb, ltb, is_some, get_elem?, drop, add, contains,
}

-- `_handle_timeout`, `_handle_all_waiting_deadlock` and `_report_error`
pub data Failure : Type 0 where
  timed_out : (needed : Option ℕ) (index : ℕ) → Failure
  all_waiting : (alive task : ℕ) → Failure
  reported : ℕ → Failure

pub record Loop : Type 0 where
  pub schedule : List ℕ
  pub index : ℕ
  pub finished : Bool
  pub error : Option Failure
  pub tasks_done : List ℕ
  pub num_tasks : ℕ
  pub waiting_count : ℕ

-- The constructors, and the number of tasks that `run_all` sets.
abbrev pub new : List ℕ → ℕ → Loop
new schedule n = record {
  schedule = schedule;
  index = 0;
  finished = false;
  error = none;
  tasks_done = [];
  num_tasks = n;
  waiting_count = 0;
}

-- The loop of `should_proceed` past the entries of done tasks, by what is left of the schedule.
unfoldable pub skip_done : List ℕ → List ℕ → ℕ → ℕ
skip_done done [] i = i
skip_done done (x ∷ xs) i = if contains x done then skip_done done xs (suc i) else i

abbrev pub live_index : Loop → ℕ
live_index l = skip_done l.tasks_done (drop l.index l.schedule) l.index

-- The task whose turn it is, and none where the schedule is exhausted.
abbrev pub turn_of : Loop → Option ℕ
turn_of l = get_elem? l.schedule (live_index l)

abbrev pub is_turn : ℕ → Option ℕ → Bool
is_turn t none = true
is_turn t (some x) = x == t

-- `should_proceed`: the answer and what it leaves.
unfoldable pub should_proceed : ℕ → Loop → Bool × Loop
should_proceed t l = (
  is_turn t (turn_of l),
  record l { index = live_index l; finished = if is_some (turn_of l) then l.finished else true },
)

unfoldable pub on_proceed : Loop → Loop
on_proceed l = if ltb l.index (length l.schedule) then record l { index = suc l.index } else l

-- How one stretch of `pause` ends: in a return at once, in the task's turn, in the wait for the
-- condition, or in the report of a deadlock.
pub data Answer : Type 0 where
  returned proceeded parked deadlocked : Answer

abbrev pub alive : Loop → ℕ
alive l = l.num_tasks - length l.tasks_done

unfoldable pub handle_all_waiting_deadlock : ℕ → Loop → Loop
handle_all_waiting_deadlock t l = record l { error = some (all_waiting (alive l) t) }

-- The count is raised before the test and lowered again where the task does not wait.
abbrev pub wait_or_report : ℕ → Loop → Answer × Loop
wait_or_report t l =
    if leb (alive l) (l.waiting_count + 1) && ltb 0 (alive l)
    then (deadlocked, handle_all_waiting_deadlock t l)
    else (parked, record l { waiting_count = l.waiting_count + 1 })

abbrev pub decide : ℕ → Bool × Loop → Answer × Loop
decide t (true, l) = (proceeded, on_proceed l)
decide t (false, l) = wait_or_report t l

-- `pause`, from its beginning to a return or the wait
unfoldable pub pause : ℕ → Loop → Answer × Loop
pause t l = if l.finished || is_some l.error then (returned, l) else decide t (should_proceed t l)

-- After a notification: the count is lowered, and the loop goes round.
unfoldable pub wake : ℕ → Loop → Answer × Loop
wake t l = pause t (record l { waiting_count = l.waiting_count - 1 })

-- After a timeout: `_handle_timeout`, and the count is lowered.
unfoldable pub time_out : ℕ → Loop → Loop
time_out t l = record l {
  error = some (timed_out (get_elem? l.schedule l.index) l.index);
  waiting_count = l.waiting_count - 1;
}

unfoldable pub mark_done : ℕ → Loop → Loop
mark_done t l = record l { tasks_done = add t l.tasks_done }

unfoldable pub report_error : ℕ → Loop → Loop
report_error e l = if is_some l.error then l else record l { error = some (reported e) }
