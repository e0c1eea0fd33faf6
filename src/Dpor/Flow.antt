-- ===== src/Dpor/Flow.antt =====
-- frontrun/dpor.py: the account of a thread's I/O events and locks, read off the engine's calls.
use frontrun.Prelude.{
  ℕ, ◌+◌, ◌-◌, ◌≡◌, refl, sym, ap, ◌∙◌, true, List, [], ◌∷◌, ◌++◌, String, string_eq, nat_eq, ◌==◌,
  if◌then◌else◌,
}
use mathlib.Core.List.{append_assoc, append-nil}
use mathlib.Core.Path.{subst}
use frontrun.Dpor.{Call, scheduled, access, io, sync, block, unblock, finish, Dpor}
use frontrun.Dpor.Log.{io_of, io_of-append}

-- What an event told to the engine does to the number of locks that its thread holds.
abbrev pub depth_step : String → ℕ → ℕ
depth_step e n = if e == "lock_acquire" then n + 1 else if e == "lock_release" then n - 1 else n

-- The number of locks that the thread holds after the calls, where it held `n` before.
abbrev pub depth_of : ℕ → ℕ → List Call → ℕ
depth_of u n [] = n
depth_of u n (scheduled d ∷ cs) = depth_of u n cs
depth_of u n (access t r ∷ cs) = depth_of u n cs
depth_of u n (io t k kind ∷ cs) = depth_of u n cs
depth_of u n (sync t e o ∷ cs) = depth_of u (if u == t then depth_step e n else n) cs
depth_of u n (block t ∷ cs) = depth_of u n cs
depth_of u n (unblock t ∷ cs) = depth_of u n cs
depth_of u n (finish t ∷ cs) = depth_of u n cs

-- Each I/O event of the thread is reported while it holds no lock.
abbrev pub OutsideLocks : ℕ → ℕ → List Call → Type 0
OutsideLocks u n [] = Unit
OutsideLocks u n (scheduled d ∷ cs) = OutsideLocks u n cs
OutsideLocks u n (access t r ∷ cs) = OutsideLocks u n cs
OutsideLocks u n (io t k kind ∷ cs) = ((u == t) ≡ true → n ≡ 0) × OutsideLocks u n cs
OutsideLocks u n (sync t e o ∷ cs) = OutsideLocks u (if u == t then depth_step e n else n) cs
OutsideLocks u n (block t ∷ cs) = OutsideLocks u n cs
OutsideLocks u n (unblock t ∷ cs) = OutsideLocks u n cs
OutsideLocks u n (finish t ∷ cs) = OutsideLocks u n cs

-- Calls after calls.
pub append_calls :
    (u n : ℕ) (xs ys : List Call)
    → OutsideLocks u n xs
    → OutsideLocks u (depth_of u n xs) ys
    → (depth_of u n (xs ++ ys) ≡ depth_of u (depth_of u n xs) ys) × OutsideLocks u n (xs ++ ys)
append_calls u n [] ys h k = (refl, k)
append_calls u n (scheduled d ∷ xs) ys h k = append_calls u n xs ys h k
append_calls u n (access t r ∷ xs) ys h k = append_calls u n xs ys h k
append_calls u n (io t key kind ∷ xs) ys h k =
    let (e, o) = append_calls u n xs ys h.1 k in (e, (h.0, o))
append_calls u n (sync t e o ∷ xs) ys h k =
    append_calls u (if u == t then depth_step e n else n) xs ys h k
append_calls u n (block t ∷ xs) ys h k = append_calls u n xs ys h k
append_calls u n (unblock t ∷ xs) ys h k = append_calls u n xs ys h k
append_calls u n (finish t ∷ xs) ys h k = append_calls u n xs ys h k

-- What a step does for one thread, to which the events `es` come.
pub record IsStep (u : ℕ) (s s' : Dpor) (es : List (ℕ × String)) : Type 0 where
  pub calls : List Call
  pub log : s'.log ≡ s.log ++ calls
  pub flow : io_of u calls ++ (s'.locals u).pending_io ≡ (s.locals u).pending_io ++ es
  pub depth : depth_of u (s.locals u).lock_depth calls ≡ (s'.locals u).lock_depth
  pub outside : OutsideLocks u (s.locals u).lock_depth calls

-- The account of one thread.
pub record IsBalanced (u : ℕ) (s : Dpor) (came : List (ℕ × String)) : Type 0 where
  pub flow : io_of u s.log ++ (s.locals u).pending_io ≡ came
  pub depth : depth_of u 0 s.log ≡ (s.locals u).lock_depth
  pub outside : OutsideLocks u 0 s.log

pub IsStep-IsBalanced :
    (u : ℕ) {s s' : Dpor} {es came : List (ℕ × String)}
    → IsStep u s s' es
    → IsBalanced u s came
    → IsBalanced u s' (came ++ es)
IsStep-IsBalanced u {s} {s'} {es} {came} st v =
    let (depths, outside) =
      append_calls u 0 s.log st.calls v.outside
        (subst (λ n. OutsideLocks u n st.calls) (sym v.depth) st.outside) in
    record {
      flow =
          ap (λ l. io_of u l ++ (s'.locals u).pending_io) st.log
          ∙ ap (λ l. l ++ (s'.locals u).pending_io) (io_of-append u s.log st.calls)
          ∙ append_assoc (io_of u s.log) (io_of u st.calls) (s'.locals u).pending_io
          ∙ ap (λ l. io_of u s.log ++ l) st.flow
          ∙ sym (append_assoc (io_of u s.log) (s.locals u).pending_io es)
          ∙ ap (λ l. l ++ es) v.flow;
      depth =
          ap (depth_of u 0) st.log ∙ depths ∙ ap (λ n. depth_of u n st.calls) v.depth ∙ st.depth;
      outside = subst (OutsideLocks u 0) (sym st.log) outside;
    }

-- Step after step.
pub IsStep-then :
    (u : ℕ) {s t r : Dpor} {es fs : List (ℕ × String)}
    → IsStep u s t es
    → IsStep u t r fs
    → IsStep u s r (es ++ fs)
IsStep-then u {s} {t} {r} {es} {fs} a b =
    let (depths, outside) =
      append_calls u (s.locals u).lock_depth a.calls b.calls a.outside
        (subst (λ n. OutsideLocks u n b.calls) (sym a.depth) b.outside) in
    record {
      calls = a.calls ++ b.calls;
      log = b.log ∙ ap (λ l. l ++ b.calls) a.log ∙ append_assoc s.log a.calls b.calls;
      flow =
          ap (λ l. l ++ (r.locals u).pending_io) (io_of-append u a.calls b.calls)
          ∙ append_assoc (io_of u a.calls) (io_of u b.calls) (r.locals u).pending_io
          ∙ ap (λ l. io_of u a.calls ++ l) b.flow
          ∙ sym (append_assoc (io_of u a.calls) (t.locals u).pending_io fs)
          ∙ ap (λ l. l ++ fs) a.flow
          ∙ append_assoc (s.locals u).pending_io es fs;
      depth = depths ∙ ap (λ n. depth_of u n b.calls) a.depth ∙ b.depth;
      outside = outside;
    }

pub stay : (u : ℕ) (s : Dpor) → IsStep u s s []
stay u s = record {
  calls = [];
  log = sym (append-nil s.log);
  flow = sym (append-nil (s.locals u).pending_io);
  depth = refl;
  outside = tt;
}
