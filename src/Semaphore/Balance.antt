-- ===== src/Semaphore/Balance.antt =====
-- CooperativeSemaphore: what threads take and give back, in every order of their steps.
use native.Mathlib.Omega.{arith}
use frontrun.Prelude.{
  ℕ, zero, suc, ◌+◌, ◌≤◌, ◌≡◌, refl, Bool, true, false, none, some, List, [], ◌∷◌, ◌++◌,
  if◌then◌else◌,
}
use frontrun.Semaphore.{
  Event, lock_acquire, lock_wait, lock_release, Semaphore, init, Answer, acquired, report, take_or,
  acquire, look, drain, retry, release,
}

-- How often a call returned True, how often `release` succeeded, and how much was given back.
pub record Counts : Type 0 where
  pub taken : ℕ
  pub releases : ℕ
  pub given : ℕ

abbrev pub note : Answer → Counts → Counts
note acquired c = record c { taken = suc c.taken }
note _ c = c

abbrev pub note_release : Bool → ℕ → Counts → Counts
note_release true n c = record c { releases = suc c.releases; given = c.given + n }
note_release false n c = c

-- Runs of any threads, with a reporter or without, from a new semaphore.
pub data Run (bounded : Bool) (value : ℕ) : Semaphore → Counts → Type 0 where
  start : Run bounded value (init bounded value) (record { taken = 0; releases = 0; given = 0 })
  call :
      {s : Semaphore} {c : Counts} (managed blocking : Bool)
      → Run bounded value s c
      → Run bounded value
          (acquire true managed blocking s).1
          (note (acquire true managed blocking s).0 c)
  spin :
      {s : Semaphore} {c : Counts} (error finished : Bool)
      → Run bounded value s c
      → Run bounded value (look true error finished s).1 (note (look true error finished s).0 c)
  wind_down :
      {s : Semaphore} {c : Counts} (late : Bool)
      → Run bounded value s c
      → Run bounded value (drain true late s).1 (note (drain true late s).0 c)
  sleep :
      {s : Semaphore} {c : Counts} (late : Bool)
      → Run bounded value s c
      → Run bounded value (retry true late s).1 (note (retry true late s).0 c)
  free :
      {s : Semaphore} {c : Counts} (n : ℕ)
      → Run bounded value s c
      → Run bounded value (release true n s).1 (note_release (release true n s).0 n c)

abbrev pub acquires : List Event → ℕ
acquires [] = 0
acquires (lock_acquire ∷ es) = suc (acquires es)
acquires (e ∷ es) = acquires es

abbrev pub frees : List Event → ℕ
frees [] = 0
frees (lock_release ∷ es) = suc (frees es)
frees (e ∷ es) = frees es

acquires-append :
    (es : List Event) (e : Event) → acquires (es ++ (e ∷ [])) ≡ acquires es + acquires (e ∷ [])
acquires-append [] e = ground arith
acquires-append (lock_acquire ∷ es) e = omega (arith, acquires-append es e)
acquires-append (lock_wait ∷ es) e = acquires-append es e
acquires-append (lock_release ∷ es) e = acquires-append es e

frees-append : (es : List Event) (e : Event) → frees (es ++ (e ∷ [])) ≡ frees es + frees (e ∷ [])
frees-append [] e = ground arith
frees-append (lock_release ∷ es) e = omega (arith, frees-append es e)
frees-append (lock_wait ∷ es) e = frees-append es e
frees-append (lock_acquire ∷ es) e = frees-append es e

-- The account of a run.
record Account (bounded : Bool) (value : ℕ) (s : Semaphore) (c : Counts) : Type 0 where
  kind : s.initial_value ≡ (if bounded then some value else none)
  balance : s.value + c.taken ≡ value + c.given
  top : bounded ≡ true → s.value ≤ value
  told : acquires s.events ≡ c.taken
  freed : frees s.events ≡ (if bounded then 0 else c.releases)

take_or-Account :
    {bounded : Bool} {value : ℕ} {s : Semaphore} {c : Counts} (next : Answer × Semaphore)
    → Account bounded value s c
    → Account bounded value next.1 (note next.0 c)
    → Account bounded value (take_or true next s).1 (note (take_or true next s).0 c)
unfolding take_or report
take_or-Account {bounded} {value} {s} {c} next a other = record {
  kind = ground (arith, a.kind, other.kind);
  balance = ground (arith, a.balance, other.balance);
  top = λ b. ground (arith, a.top b, other.top b);
  told = ground (arith, a.told, other.told, acquires-append s.events lock_acquire);
  freed = ground (arith, a.freed, other.freed, frees-append s.events lock_acquire);
}

told_wait :
    {bounded : Bool} {value : ℕ} {s : Semaphore} {c : Counts}
    → Account bounded value s c
    → Account bounded value (report true lock_wait s) c
unfolding report
told_wait {bounded} {value} {s} a = record {
  kind = a.kind;
  balance = a.balance;
  top = a.top;
  told = ground (arith, a.told, acquires-append s.events lock_wait);
  freed = ground (arith, a.freed, frees-append s.events lock_wait);
}

acquire-Account :
    {bounded : Bool} {value : ℕ} {s : Semaphore} {c : Counts} (managed blocking : Bool)
    → Account bounded value s c
    → Account bounded value
        (acquire true managed blocking s).1
        (note (acquire true managed blocking s).0 c)
unfolding acquire
acquire-Account managed false a = take_or-Account _ a a
acquire-Account true true a = take_or-Account _ a (told_wait a)
acquire-Account false true a = take_or-Account _ a a

look-Account :
    {bounded : Bool} {value : ℕ} {s : Semaphore} {c : Counts} (error finished : Bool)
    → Account bounded value s c
    → Account bounded value (look true error finished s).1 (note (look true error finished s).0 c)
unfolding look
look-Account true finished a = a
look-Account false true a = take_or-Account _ a a
look-Account false false a = take_or-Account _ a a

drain-Account :
    {bounded : Bool} {value : ℕ} {s : Semaphore} {c : Counts} (late : Bool)
    → Account bounded value s c
    → Account bounded value (drain true late s).1 (note (drain true late s).0 c)
unfolding drain
drain-Account true a = a
drain-Account false a = take_or-Account _ a a

retry-Account :
    {bounded : Bool} {value : ℕ} {s : Semaphore} {c : Counts} (late : Bool)
    → Account bounded value s c
    → Account bounded value (retry true late s).1 (note (retry true late s).0 c)
unfolding retry
retry-Account true a = take_or-Account _ a a
retry-Account false a = take_or-Account _ a a

release-Account :
    {bounded : Bool} {value : ℕ} {s : Semaphore} {c : Counts} (n : ℕ)
    → Account bounded value s c
    → Account bounded value (release true n s).1 (note_release (release true n s).0 n c)
unfolding release report
release-Account zero a = a
release-Account {bounded} {value} {s} {c} (suc n) a = record {
  kind = ground (arith, a.kind);
  balance = ground (arith, a.kind, a.balance);
  top = λ b. ground (arith, a.kind, a.top b);
  told = ground (arith, a.kind, a.told, acquires-append s.events lock_release);
  freed = ground (arith, a.kind, a.freed, frees-append s.events lock_release);
}

account :
    {bounded : Bool} {value : ℕ} {s : Semaphore} {c : Counts}
    → Run bounded value s c
    → Account bounded value s c
unfolding init
account start = record {
  kind = refl;
  balance = refl;
  top = λ b. omega arith;
  told = refl;
  freed = ground arith;
}
account (call managed blocking r) = acquire-Account managed blocking (account r)
account (spin error finished r) = look-Account error finished (account r)
account (wind_down late r) = drain-Account late (account r)
account (sleep late r) = retry-Account late (account r)
account (free n r) = release-Account n (account r)

-- In every run the counter is the start value, less the calls that returned True, plus what was
-- given back; so no more is ever taken than there is. A bounded semaphore's counter never passes
-- its start value.
pub Run-balance :
    {bounded : Bool} {value : ℕ} {s : Semaphore} {c : Counts}
    → Run bounded value s c
    → (s.value + c.taken ≡ value + c.given) × (bounded ≡ true → s.value ≤ value)
Run-balance r = let a = account r in (a.balance, a.top)

-- The reporter is told of every call that returned True, and of every release of a plain
-- semaphore; of the releases of a bounded one it is told of none.
pub Run-reports :
    {bounded : Bool} {value : ℕ} {s : Semaphore} {c : Counts}
    → Run bounded value s c
    → (acquires s.events ≡ c.taken) × (frees s.events ≡ (if bounded then 0 else c.releases))
Run-reports r = let a = account r in (a.told, a.freed)
