-- ===== src/Condition/Wakeups.antt =====
-- CooperativeCondition: which waiting calls are woken, in every order of the steps.
use mathlib.Core.List.{map}
use native.Mathlib.Omega.{arith}
use frontrun.Prelude.{
  ℕ, ◌+◌, ◌≤◌, ◌≡◌, ◌↔◌, refl, Bool, true, false, ◌&&◌, Option, List, [], ◌∷◌, ◌++◌, length,
  length-append, All, ltb, if◌then◌else◌, none, some,
}
use frontrun.Condition.{
  Condition, Held, notified, init, begin_wait, look, end_wait, notify, notify_all,
}

-- A call of `wait` in progress: its snapshot, and whether there was a notification since it began.
pub record Call : Type 0 where
  pub snapshot : ℕ
  pub woken : Bool

abbrev pub wake : Bool → Call → Call
wake by x = if by then record x { woken = true } else x

-- How often the lock's own calls raised: the release before the wait, or the acquire after it.
abbrev pub failed : Bool → ℕ → ℕ
failed returned raises = if returned then raises else raises + 1

-- The call that begins to wait, if the lock was released.
abbrev pub with_new : Option ℕ → List Call → List Call
with_new none calls = calls
with_new (some n) calls = record { snapshot = n; woken = false } ∷ calls

-- The calls in progress, the latest first, and how many were ended by an exception of the lock; a
-- notification is for all that are in progress.
pub data Run : Condition → List Call → ℕ → Type 0 where
  start : Run init [] 0
  enter :
      {c : Condition} {calls : List Call} {raises : ℕ} (released : Bool)
      → Run c calls raises
      → Run
          (begin_wait released c).1
          (with_new (begin_wait released c).0 calls)
          (failed released raises)
  leave :
      {c : Condition} {raises : ℕ} (acquired : Bool) (before : List Call) (x : Call)
      (after : List Call)
      → Run c (before ++ (x ∷ after)) raises
      → Run (end_wait acquired c) (before ++ after) (failed acquired raises)
  signal :
      {c : Condition} {calls : List Call} {raises : ℕ} (ctx : Option ℕ) (held : Held) (n : ℕ)
      → Run c calls raises
      → Run (notify ctx held n c).1 (map (wake ((notify ctx held n c).0 && ltb 0 n)) calls) raises
  broadcast :
      {c : Condition} {calls : List Call} {raises : ℕ} (ctx : Option ℕ) (held : Held)
      → Run c calls raises
      → Run (notify_all ctx held c).1 (map (wake (notify_all ctx held c).0) calls) raises

-- The snapshot tells whether the call was notified.
abbrev Tells : ℕ → Call → Type 0
Tells n x = (x.snapshot ≤ n) × (ltb x.snapshot n ≡ x.woken)

All-remove :
    (P : Call → Type 0) (before : List Call) (x : Call) (after : List Call)
    → All P (before ++ (x ∷ after))
    → All P (before ++ after)
All-remove P [] x after h = h.1
All-remove P (b ∷ before) x after h = (h.0, All-remove P before x after h.1)

All-wake :
    (by : Bool) (n m : ℕ) (calls : List Call)
    → ((by ≡ true → n + 1 ≤ m) × (by ≡ false → n ≡ m))
    → All (Tells n) calls
    → All (Tells m) (map (wake by) calls)
All-wake by n m [] step h = tt
All-wake by n m (x ∷ calls) step h = (wake_one by step, All-wake by n m calls step h.1)
  where
    wake_one : (b : Bool) → ((b ≡ true → n + 1 ≤ m) × (b ≡ false → n ≡ m)) → Tells m (wake b x)
    wake_one true st = ground (arith, st.0 refl, h.0)
    wake_one false st = ground (arith, st.1 refl, h.0)

notify-step :
    (ctx : Option ℕ) (held : Held) (n : ℕ) (c : Condition)
    → (((notify ctx held n c).0 && ltb 0 n) ≡ true
        → c.notify_count + 1 ≤ (notify ctx held n c).1.notify_count)
      × (((notify ctx held n c).0 && ltb 0 n) ≡ false
          → c.notify_count ≡ (notify ctx held n c).1.notify_count)
      × ((notify ctx held n c).1.waiters ≡ c.waiters)
unfolding notify
notify-step ctx held n c = ground arith

notify_all-step :
    (ctx : Option ℕ) (held : Held) (c : Condition)
    → ((notify_all ctx held c).0 ≡ true
        → c.notify_count + 1 ≤ (notify_all ctx held c).1.notify_count)
      × ((notify_all ctx held c).0 ≡ false
          → c.notify_count ≡ (notify_all ctx held c).1.notify_count)
      × ((notify_all ctx held c).1.waiters ≡ c.waiters)
unfolding notify_all
notify_all-step ctx held c = ground arith

length-map-wake : (by : Bool) (calls : List Call) → length (map (wake by) calls) ≡ length calls
length-map-wake by [] = refl
length-map-wake by (x ∷ calls) = omega (arith, length-map-wake by calls)

waits_known :
    {c : Condition} {calls : List Call} {raises : ℕ}
    → Run c calls raises
    → (c.waiters ≡ length calls + raises) × All (Tells c.notify_count) calls
unfolding init begin_wait end_wait
waits_known start = (refl, tt)
waits_known (enter true r) = let (w, a) = waits_known r in (omega arith, (ground arith, a))
waits_known (enter false r) = let (w, a) = waits_known r in (omega arith, a)
waits_known (leave {c} true before x after r) =
    let (w, a) = waits_known r in
    (
      omega (arith, length-append before (x ∷ after), length-append before after),
      All-remove (Tells c.notify_count) before x after a,
    )
waits_known (leave {c} false before x after r) =
    let (w, a) = waits_known r in
    (
      omega (arith, length-append before (x ∷ after), length-append before after),
      All-remove (Tells c.notify_count) before x after a,
    )
waits_known (signal {c} {calls} ctx held n r) =
    let (w, a) = waits_known r in
    let (up, same, kept) = notify-step ctx held n c in
    (
      omega (arith, length-map-wake ((notify ctx held n c).0 && ltb 0 n) calls),
      All-wake _ c.notify_count (notify ctx held n c).1.notify_count calls (up, same) a,
    )
waits_known (broadcast {c} {calls} ctx held r) =
    let (w, a) = waits_known r in
    let (up, same, kept) = notify_all-step ctx held c in
    (
      omega (arith, length-map-wake (notify_all ctx held c).0 calls),
      All-wake _ c.notify_count (notify_all ctx held c).1.notify_count calls (up, same) a,
    )

-- The next round of a waiting call returns True, whatever the scheduler's state and the clock.
abbrev pub Returns : Condition → Call → Type 0
Returns c x =
    (error finished late : Bool)
    → (look error finished late x.snapshot c ≡ notified) ↔ (x.woken ≡ true)

Tells-Returns : (c : Condition) (x : Call) → Tells c.notify_count x → Returns c x
unfolding look
Tells-Returns c x h error finished late = ground arith

All-Returns :
    (c : Condition) (calls : List Call) → All (Tells c.notify_count) calls → All (Returns c) calls
All-Returns c [] h = tt
All-Returns c (x ∷ calls) h = (Tells-Returns c x h.0, All-Returns c calls h.1)

-- In every run the number of waiters is that of the calls of `wait` in progress and of those that were
-- ended by an exception of the lock, of its release before the wait or its acquire after it; and a
-- call in progress of a managed thread returns True in its next round exactly if a notification of at
-- least one came since it began: none is lost, and each one, whatever its number, wakes every
-- waiting call.
pub Run-Returns :
    {c : Condition} {calls : List Call} {raises : ℕ}
    → Run c calls raises
    → (c.waiters ≡ length calls + raises) × All (Returns c) calls
Run-Returns {c} {calls} r = let (w, a) = waits_known r in (w, All-Returns c calls a)
