-- ===== src/AsyncLoop/Counts.antt =====
-- How many tasks are where.
use frontrun.Prelude.{
  ℕ, zero, suc, ◌+◌, ◌≤◌, ◌<◌, ◌≡◌, refl, ap, true, false, nat_eq, nat_beq_iff, ◌==◌, arith,
  Bool-cases, inl, inr,
}
use frontrun.AsyncLoop.System.{Status, running, waiting, ended, notified, notify_all, set_status}

abbrev pub is_running : Status → ℕ
is_running running = 1
is_running (waiting b) = 0
is_running ended = 0

abbrev pub is_waiting : Status → ℕ
is_waiting running = 0
is_waiting (waiting b) = 1
is_waiting ended = 0

abbrev pub is_ended : Status → ℕ
is_ended running = 0
is_ended (waiting b) = 0
is_ended ended = 1

-- The sum over the tasks below `n`.
abbrev pub total : (Status → ℕ) → (ℕ → Status) → ℕ → ℕ
total f st zero = 0
total f st (suc n) = f (st n) + total f st n

one_each : (x : Status) → is_running x + (is_waiting x + is_ended x) ≡ 1
one_each running = refl
one_each (waiting b) = refl
one_each ended = refl

pub total-all :
    (st : ℕ → Status) (n : ℕ)
    → total is_running st n + (total is_waiting st n + total is_ended st n) ≡ n
total-all st zero = refl
total-all st (suc n) = omega (arith, one_each (st n), total-all st n)

pub total-ext :
    (f : Status → ℕ) (st st' : ℕ → Status) (n : ℕ)
    → ((u : ℕ) → u < n → f (st' u) ≡ f (st u))
    → total f st' n ≡ total f st n
total-ext f st st' zero h = refl
total-ext f st st' (suc n) h =
    omega (arith, h n (omega arith), total-ext f st st' n (λ u k. h u (omega arith)))

-- The change of one task's status.
pub total-set :
    (f : Status → ℕ) (st : ℕ → Status) (t : ℕ) (x : Status) (n : ℕ)
    → t < n
    → total f (set_status t x st) n + f (st t) ≡ total f st n + f x
total-set f st t x zero h = absurd (omega arith)
total-set f st t x (suc n) h = elim (Bool-cases (n == t)) [
  | inl e ↦ here e ((nat_beq_iff n t).0 e)
  | inr e ↦ there e (total-set f st t x n)
]
  where
    below : (k : ℕ) → k ≤ t → total f (set_status t x st) k ≡ total f st k
    below k le = total-ext f st (set_status t x st) k (λ u lt. ap f (kept u lt))
      where
        kept : (u : ℕ) → u < k → set_status t x st u ≡ st u
        kept u lt = ground (arith, nat_beq_iff u t)

    here :
        (n == t) ≡ true
        → n ≡ t
        → total f (set_status t x st) (suc n) + f (st t) ≡ total f st (suc n) + f x
    here b e = omega (arith, ap f (at_task b), ap (λ u. f (st u)) e, below n (omega arith))
      where
        at_task : (n == t) ≡ true → set_status t x st n ≡ x
        at_task b = rw b

    there :
        (n == t) ≡ false
        → (t < n → total f (set_status t x st) n + f (st t) ≡ total f st n + f x)
        → total f (set_status t x st) (suc n) + f (st t) ≡ total f st (suc n) + f x
    there e rest = omega (arith, ap f (at_other e), rest (ground (arith, nat_beq_iff n t)))
      where
        at_other : (n == t) ≡ false → set_status t x st n ≡ st n
        at_other e = rw e

pub total-one : (st : ℕ → Status) (t n : ℕ) → t < n → st t ≡ running → 1 ≤ total is_running st n
total-one st t zero h e = absurd (omega arith)
total-one st t (suc n) h e = elim (Bool-cases (n == t)) [
  | inl e' ↦ omega (arith, ap (λ k. is_running (st k)) ((nat_beq_iff n t).0 e'), ap is_running e)
  | inr e' ↦ omega (arith, total-one st t n (ground (arith, nat_beq_iff n t)) e)
]

-- Two tasks that run are counted both.
pub total-two :
    (st : ℕ → Status) (t u n : ℕ)
    → t < n
    → u < n
    → (u == t) ≡ false
    → st t ≡ running
    → st u ≡ running
    → 2 ≤ total is_running st n
total-two st t u zero h k ne e f = absurd (omega arith)
total-two st t u (suc n) h k ne e f = elim (Bool-cases (n == t)) [
  | inl e' ↦ omega (
    arith,
    ap (λ k. is_running (st k)) ((nat_beq_iff n t).0 e'),
    ap is_running e,
    total-one st u n (ground (arith, nat_beq_iff n t, nat_beq_iff u t)) f,
  )
  | inr e' ↦ elim (Bool-cases (n == u)) [
    | inl e'' ↦ omega (
      arith,
      ap (λ k. is_running (st k)) ((nat_beq_iff n u).0 e''),
      ap is_running f,
      total-one st t n (ground (arith, nat_beq_iff n t)) e,
    )
    | inr e'' ↦ omega (
      arith,
      total-two st t u n (ground (arith, nat_beq_iff n t)) (ground (arith, nat_beq_iff n u)) ne e f,
    )
  ]
]

pub notified-counts :
    (x : Status)
    → (is_running (notified x) ≡ is_running x)
      × (is_waiting (notified x) ≡ is_waiting x)
      × (is_ended (notified x) ≡ is_ended x)
notified-counts running = (refl, refl, refl)
notified-counts (waiting b) = (refl, refl, refl)
notified-counts ended = (refl, refl, refl)

pub total-notify :
    (st : ℕ → Status) (n : ℕ)
    → (total is_waiting (notify_all st) n ≡ total is_waiting st n)
      × (total is_ended (notify_all st) n ≡ total is_ended st n)
total-notify st n = (
  total-ext is_waiting st (notify_all st) n (λ u h. (notified-counts (st u)).1),
  total-ext is_ended st (notify_all st) n (λ u h. (notified-counts (st u)).2),
)
