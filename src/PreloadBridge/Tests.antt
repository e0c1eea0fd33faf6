-- ===== src/PreloadBridge/Tests.antt =====
-- A registered thread sends, closes and drains.
use frontrun.Prelude.{ℕ, ◌≡◌, refl, List, [], ◌∷◌, ◌++◌, String, lookup, put}
use frontrun.PreloadBridge.{
  IoEvent, Entry, Bridge, new, clear, pending_at, register_thread, listener, poll, drain,
}
use frontrun.PreloadBridge.Routing.{
  share, shares, drained_by, Run, start, register, event, take_all, Run-routed,
}

abbrev key : String → ℕ
key resource = 7

abbrev send : IoEvent
send = record { kind = "write"; tid = 100; resource_id = "db" }

abbrev registered : Bridge
registered = register_thread 100 0 (clear new)

abbrev sent : Bridge
sent = listener key send registered

abbrev drained : List Entry × Bridge
drained = drain key (send ∷ []) 0 sent

abbrev came : ℕ → List Entry
came k =
    ([] ++ share key k send registered.tid_to_dpor) ++ shares key k (send ∷ []) sent.tid_to_dpor

abbrev got : ℕ → List Entry
got k = [] ++ drained_by key k 0 drained.0

run : Run key drained.1 came got
run = take_all (send ∷ []) 0 (event send (register 100 0 (start new)))

Run-routed_example : came 0 ≡ got 0 ++ pending_at 0 drained.1
Run-routed_example = Run-routed key run 0

-- Both events were drained.
both_drained : drained.0 ≡ (7, "write", "db") ∷ (7, "write", "db") ∷ []
unfolding drain poll listener register_thread clear lookup put
both_drained = refl
