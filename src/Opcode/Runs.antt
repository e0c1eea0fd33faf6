-- ===== src/Opcode/Runs.antt =====
-- Runs of the scheduler: any threads call any of its methods in any order.
use frontrun.Prelude.{ℕ, ◌≡◌, some, List, [], ◌∷◌, ◌++◌, nat_eq}
use frontrun.Opcode.{
  Scheduler, Failure, init, Round, granted, wait_for_turn, time_out, mark_done, report_error,
}

-- The log of the threads that were granted a turn, the latest last.
abbrev pub note : Round → ℕ → List ℕ → List ℕ
note granted t log = log ++ (t ∷ [])
note _ t log = log

pub data Step : Scheduler → List ℕ → Scheduler → List ℕ → Type 0 where
  turn :
      {s s' : Scheduler} {log : List ℕ} (fuel t : ℕ) (r : Round)
      → wait_for_turn fuel t s ≡ some (r, s')
      → Step s log s' (note r t log)
  timeout : {s : Scheduler} {log : List ℕ} → Step s log (time_out s).1 log
  done : {s : Scheduler} {log : List ℕ} (t : ℕ) → Step s log (mark_done t s) log
  fail : {s : Scheduler} {log : List ℕ} (e : Failure) → Step s log (report_error e s) log

pub data Run (first : List ℕ) (n ops : ℕ) : Scheduler → List ℕ → Type 0 where
  here : Run first n ops (init first n ops) []
  next :
      {s s' : Scheduler} {log log' : List ℕ}
      → Run first n ops s log
      → Step s log s' log'
      → Run first n ops s' log'
