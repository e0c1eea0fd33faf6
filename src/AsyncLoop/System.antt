-- ===== src/AsyncLoop/System.antt =====
-- frontrun/async_scheduler.py: the tasks of a loop, and who of them waits.
use frontrun.Prelude.{ℕ, ◌<◌, ◌≡◌, Bool, true, false, List, nat_eq, ◌==◌, if◌then◌else◌}
use frontrun.AsyncLoop.{
  Loop, Answer, returned, proceeded, parked, deadlocked, new, pause, wake, time_out, mark_done,
  report_error,
}

-- Where a task is: in its own code, in `pause` at the wait, with or without a notification, or at its
-- end.
pub data Status : Type 0 where
  running : Status
  waiting : (notified : Bool) → Status
  ended : Status

-- `notify_all`
abbrev pub notified : Status → Status
notified running = running
notified (waiting b) = waiting true
notified ended = ended

abbrev pub notify_all : (ℕ → Status) → ℕ → Status
notify_all st u = notified (st u)

abbrev pub set_status : ℕ → Status → (ℕ → Status) → ℕ → Status
set_status t x st u = if u == t then x else st u

-- What becomes of the tasks when one of them has had its stretch of `pause`.
abbrev pub after : Answer → ℕ → (ℕ → Status) → ℕ → Status
after returned t st = set_status t running st
after proceeded t st = notify_all (set_status t running st)
after parked t st = set_status t (waiting false) st
after deadlocked t st = notify_all (set_status t running st)

-- The runs of `n` tasks.
pub data Run (schedule : List ℕ) (n : ℕ) : Loop → (ℕ → Status) → Type 0 where
  start : Run schedule n (new schedule n) (λ t. running)
  paused :
      {l l' : Loop} {st : ℕ → Status} {a : Answer} (t : ℕ)
      → t < n
      → st t ≡ running
      → pause t l ≡ (a, l')
      → Run schedule n l st
      → Run schedule n l' (after a t st)
  woken :
      {l l' : Loop} {st : ℕ → Status} {a : Answer} (t : ℕ)
      → t < n
      → st t ≡ waiting true
      → wake t l ≡ (a, l')
      → Run schedule n l st
      → Run schedule n l' (after a t (set_status t running st))
  expired :
      {l : Loop} {st : ℕ → Status} {b : Bool} (t : ℕ)
      → t < n
      → st t ≡ waiting b
      → Run schedule n l st
      → Run schedule n (time_out t l) (notify_all (set_status t running st))
  done :
      {l : Loop} {st : ℕ → Status} (t : ℕ)
      → t < n
      → st t ≡ running
      → Run schedule n l st
      → Run schedule n (mark_done t l) (notify_all (set_status t ended st))
  failed :
      {l : Loop} {st : ℕ → Status} (e : ℕ)
      → Run schedule n l st
      → Run schedule n (report_error e l) (notify_all st)
