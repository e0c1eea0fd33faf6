-- ===== src/Semaphore/Tests.antt =====
-- A bounded semaphore that is taken and given back.
use frontrun.Prelude.{◌+◌, ◌≤◌, ◌≡◌, refl, Bool, true}
use frontrun.Semaphore.{Semaphore, Answer, init, acquire, release, take_or, report}
use frontrun.Semaphore.Balance.{
  Counts, note, note_release, Run, start, call, free, acquires, frees, Run-balance, Run-reports,
}

abbrev zero_counts : Counts
zero_counts = record { taken = 0; releases = 0; given = 0 }

abbrev taken_once : Answer × Semaphore
taken_once = acquire true true true (init true 1)

abbrev given_back : Bool × Semaphore
given_back = release true 1 taken_once.1

abbrev counts : Counts
counts = note_release given_back.0 1 (note taken_once.0 zero_counts)

run : Run true 1 given_back.1 counts
run = free 1 (call true true start)

Run-balance_example :
    (given_back.1.value + counts.taken ≡ 1 + counts.given) × (true ≡ true → given_back.1.value ≤ 1)
Run-balance_example = Run-balance run

Run-reports_example :
    (acquires given_back.1.events ≡ counts.taken) × (frees given_back.1.events ≡ 0)
Run-reports_example = Run-reports run

-- One acquisition, one release, and only the first was reported.
released_once : counts ≡ record { taken = 1; releases = 1; given = 1 }
unfolding acquire release take_or report init
released_once = refl
