-- ===== src/Lib.antt =====
-- frontrun: schedules that force an interleaving of threads, and what they need to be right.
--
-- Threads run under a scheduler that says who goes next. frontrun/bytecode.py gives a turn for each
-- opcode by a list of thread numbers; frontrun/trace_markers.py gives one for each marker comment,
-- by a list of steps. A thread that would block on a lock inside a turn would stop the scheduler, so
-- frontrun/_cooperative.py replaces the lock by one that hands its turn over, and keeps in the
-- wait-for graph of frontrun/_deadlock.py who holds it and who waits for it. When a run fails,
-- frontrun/_trace_format.py turns its events into lines to read.
--
-- Prelude   equality tests, lists and dictionaries that all parts use (no code of its own)
-- WaitGraph frontrun/_deadlock.py, class WaitForGraph: `dfs`, `find_cycle_from` (the method
--           `_find_cycle_from`), and the methods by their names. WaitGraph/Search: the search's
--           termination; Cycles: what it reports; Missed: what it does not; Edges: the relation.
-- Opcode    frontrun/bytecode.py, class OpcodeScheduler: `round` is one round of the loop of
--           `wait_for_turn`, `time_out` what follows a wait that timed out. Opcode/Loop: the loop;
--           Effect, Follow, Runs, Invariant: one call, and all runs; Grants, Progress: who is granted.
-- CoopLock  frontrun/_cooperative.py, class CooperativeLock: `acquire` is cut where it gives up its
--           turn, into `acquire`, `spin`, `interrupt` and `os_return`. CoopLock/System: threads on
--           one lock; Edits, Mirror: the graph and the lock.
-- CoopRlock frontrun/_cooperative.py, CooperativeRLock, cut like the lock. CoopRlock/System: threads
--           on one lock; Fields, Depth: owner and count.
-- Semaphore frontrun/_cooperative.py, CooperativeSemaphore and CooperativeBoundedSemaphore: each loop
--           of `acquire` is a step for one round. Semaphore/Balance: the account of all runs.
-- Condition frontrun/_cooperative.py, CooperativeCondition: `wait` is `begin_wait`, rounds `look` and
--           `end_wait`. Condition/Wakeups: who is woken.
-- CoopQueue frontrun/_cooperative.py, CooperativeQueue: `get` and `put` are cut where they give up
--           their turn. CoopQueue/History: what the calls did.
-- Markers   frontrun/common.py, Step and Schedule, and frontrun/trace_markers.py, ThreadCoordinator
--           and TraceExecutor.wait. Markers/Runs, Order: the order of the markers in a run.
-- MarkerTrace frontrun/async_trace_markers.py, the trace function of AsyncTraceExecutor. Once: one
--           line; Walk: all the lines that a thread runs.
-- PreloadBridge frontrun/dpor.py, _PreloadBridge. PreloadBridge/Threads: registration; Routing: what
--           each thread drains.
-- Shadow    frontrun/dpor.py, ShadowStack and _process_opcode: Shadow/Ops and Calls: the handlers by
--           the instructions' names; Instruction, Process: their choice; Conflicts, Iterate: what the
--           engine is told.
-- Dpor      frontrun/dpor.py, DporScheduler: `look` is a round of the loop of `_report_and_wait`,
--           `time_out` what follows a wait that timed out. Dpor/Sync: the reporters and the part
--           before the loop (`collect_io`); Log: what the engine's calls say; Runs: all runs; Beside,
--           Turns: who is granted; Waiters: who is blocked; Flow, Io, Delivery: I/O events.
-- AsyncLoop frontrun/async_scheduler.py, InterleavedLoop, with the policy of frontrun/async_bytecode.py,
--           AwaitScheduler: `pause` is cut where it waits, into `pause`, `wake` and `time_out`.
--           AsyncLoop/System: tasks and their statuses; Counts, Recount, Invariant: the
--           account of tasks; Deadlock: who is reported.
-- PreloadIo frontrun/_preload_io.py, _parse_event_line and IOEventDispatcher: `take_lines` is the loop
--           over the buffer and `reader_round` a round of `_reader_loop`. PreloadIo/Lines: the loop;
--           Chunks: reads; Format: the documented format.
-- Explore   frontrun/bytecode.py, explore_interleavings, with InterleavingResult of
--           frontrun/common.py; `try_schedule` is one attempt. Explore/Actions:
--           code that may raise; Fair: the schedules; Reports, Sound: the result.
-- Runner    frontrun/bytecode.py, BytecodeShuffler and run_with_schedule: `enter` and `leave` are what
--           a thread does around its function, `run_raises` the end of `run`. Runner/Runs: threads in
--           any order; Account, Steps: each step; Outcomes: what comes of a run.
-- ExploreDpor frontrun/dpor.py, explore_dpor: `one_execution` is an execution with its verdict and
--           `after_failure` what is done where it fails. ExploreDpor/Calm, Steps: the parts of a
--           round; Summary: results; Rounds, Ends: the loop.
-- Registry  frontrun/trace_markers.py, MarkerRegistry. Registry/Faithful: lookup after scans.
-- Trace     frontrun/_trace_format.py: `deduplicate_to_source_lines`. Trace/Condense: `condense_trace`
--           and its helpers; Spots, Accesses: what deduplication keeps; Conflicts: the conflicting
--           keys; Collapse, Halves, Cap: what is shown of a long trace; Classify: `classify_conflict`, with
--           Witnessed, Grouped, Shown on what it names.
--
-- A method that holds a lock for its whole body is one step on a record of its object's fields; an
-- exception is a value of the answer. A set is a list and a dictionary is an association list.
--
-- Fuel: `dfs` has the depth `length (nodes g) + 1`, since no node on the path is entered twice; the
-- loop of the opcode scheduler's `wait_for_turn` has one round for each entry that is left and
-- one for an extension, since every round that goes on moves the index past an entry; the loop of
-- explore_dpor has one for each execution that the engine has left, and one more.
--
-- Not modelled: starting and joining threads and tasks, the hooks of sys.monitoring, the cooperative
-- event, the engine in Rust, the wrappers of I/O, the filter of traced files, the text that
-- format_trace writes, and the command line: they patch the interpreter, run outside it or only print.
-- Reading a source file, the regular expression of a marker, the key of a resource, the answers of the
-- interpreter to an instruction (a record, Runtime), those of the engine, the queue of the standard
-- library and its `int`, random numbers, the clock, the threads' functions and what a run of them
-- leaves are parameters.

pub mod AsyncLoop
pub mod Condition
pub mod CoopLock
pub mod CoopQueue
pub mod CoopRlock
pub mod Dpor
pub mod Explore
pub mod ExploreDpor
pub mod MarkerTrace
pub mod Markers
pub mod Opcode
pub mod PreloadBridge
pub mod PreloadIo
pub mod Prelude
pub mod Registry
pub mod Runner
pub mod Semaphore
pub mod Shadow
pub mod Trace
pub mod WaitGraph
