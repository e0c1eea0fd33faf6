-- ===== src/CoopRlock/Tests.antt =====
-- A thread takes a reentrant lock twice and gives it back once.
use frontrun.Prelude.{ℕ, ◌≡◌, refl, Bool, true, none, some, is_some, ltb, if◌then◌else◌}
use frontrun.CoopRlock.{
  Rlock, Answer, new, is_owned, acquire, release, set_owner_and_report, report, on_graph,
}
use frontrun.CoopRlock.System.{deeper, shallower, Run, start, call, free}
use frontrun.CoopRlock.Depth.{Run-depth}

abbrev once : Answer × Rlock
once = acquire 7 true 100 (some 1) true (new none)

abbrev twice : Answer × Rlock
twice = acquire 7 true 100 (some 1) true once.1

abbrev freed : Bool × Rlock
freed = release 7 true 100 twice.1

abbrev depth : ℕ → ℕ
depth = shallower freed.0 100 (deeper twice.0 100 (deeper once.0 100 (λ t. 0)))

run : Run 7 true freed.1 depth
run = free 100 (call 100 (some 1) true (call 100 (some 1) true (start none)))

Run-depth_example :
    (freed.1.locked ≡ is_some freed.1.owner)
    × (freed.1.locked ≡ ltb 0 freed.1.count)
    × ((t : ℕ) → depth t ≡ (if is_owned t freed.1.owner then freed.1.count else 0))
Run-depth_example = Run-depth run

-- It still holds the lock once.
still_held : freed.1.count ≡ 1
unfolding acquire release set_owner_and_report report on_graph
still_held = refl
