-- ===== src/Condition/Tests.antt =====
-- Two calls wait, and `notify(1)` wakes both; the lock's release raises in a third.
use frontrun.Prelude.{◌+◌, ◌≡◌, refl, Bool, true, false, ◌&&◌, some, List, [], length, All, ltb}
use mathlib.Core.List.{map}
use frontrun.Condition.{Condition, plain, init, begin_wait, end_wait, notify, check_owned}
use frontrun.Condition.Wakeups.{
  Call, wake, with_new, Run, start, enter, signal, Returns, Run-Returns,
}

abbrev waiting : Condition
waiting = (begin_wait false (begin_wait true (begin_wait true init).1).1).1

abbrev calls : List Call
calls =
    with_new (begin_wait false (begin_wait true (begin_wait true init).1).1).0
      (with_new (begin_wait true (begin_wait true init).1).0 (with_new (begin_wait true init).0 []))

abbrev after : Bool × Condition
after = notify (some 3) (plain (some 3) true) 1 waiting

abbrev woken : List Call
woken = map (wake (after.0 && ltb 0 1)) calls

run : Run after.1 woken 1
run = signal (some 3) (plain (some 3) true) 1 (enter false (enter true (enter true start)))

Run-Returns_example : (after.1.waiters ≡ length woken + 1) × All (Returns after.1) woken
Run-Returns_example = Run-Returns run

-- The notification was made, so both calls are woken.
one_notification : after.0 ≡ true
unfolding notify check_owned
one_notification = refl

-- With no call in progress, two waiters are left where both of the lock's calls raised.
leaked : (end_wait false (begin_wait true (begin_wait false init).1).1).waiters ≡ 2
unfolding end_wait begin_wait init
leaked = refl
