-- ===== src/CoopRlock/Depth.antt =====
-- CooperativeRLock: who holds it and how deep, in every order of the threads' steps.
use mathlib.Core.Path.{subst}
use native.Mathlib.Omega.{arith}
use frontrun.Prelude.{
  ℕ, zero, suc, ◌+◌, ◌≡◌, ◌≢◌, refl, sym, ap, ◌∙◌, Bool, true, false, Option, none, some,
  if◌then◌else◌, is_some, ltb,
}
use frontrun.CoopRlock.{
  Rlock, Answer, acquired, not_acquired, os_blocked, spinning, aborted, is_owned, slow_path,
  acquire, spin, interrupt, os_return, count_down, release,
}
use frontrun.CoopRlock.System.{deeper, shallower, Run, start, call, look, raise, back, free}
use frontrun.CoopRlock.Fields.{
  Fields, fields, Fits, fields-report, fields-on_graph, fields-take_lock, fields-slow_path,
  fields-let_go,
}

-- What a call leaves behind.
record Good (me : ℕ) (d : ℕ → ℕ) (o : Answer × Rlock) : Type 0 where
  fits : Fits (fields o.1) (deeper o.0 me d)

Good-if :
    {me : ℕ} {d : ℕ → ℕ} {x y : Answer × Rlock} (b : Bool)
    → (b ≡ true → Good me d x)
    → (b ≡ false → Good me d y)
    → Good me d (if b then x else y)
Good-if true h k = h refl
Good-if false h k = k refl

idle :
    (f : Fields) (me : ℕ) (d : ℕ → ℕ) (a : Answer)
    → (a ≢ acquired)
    → Fits f d
    → Fits f (deeper a me d)
idle f me d acquired ne h = absurd (ne refl)
idle f me d not_acquired ne h = h
idle f me d os_blocked ne h = h
idle f me d spinning ne h = h
idle f me d aborted ne h = h

Fits-taken :
    (f : Fields) (me : ℕ) (d : ℕ → ℕ)
    → f.0 ≡ false
    → Fits f d
    → Fits (true, some me, 1) (deeper acquired me d)
Fits-taken (l, none, n) me d unlocked h = (refl, ground arith, λ t. ground (arith, h.2 t))
Fits-taken (l, some o, n) me d unlocked h = absurd (ground (arith, h.0))

Fits-again :
    (f : Fields) (me : ℕ) (d : ℕ → ℕ)
    → is_owned me f.1 ≡ true
    → Fits f d
    → Fits (f.0, f.1, f.2 + 1) (deeper acquired me d)
Fits-again (l, none, n) me d owns h = absurd (ground arith)
Fits-again (l, some o, n) me d owns h = (h.0, ground (arith, h.0), λ t. ground (arith, h.2 t))

acquire-Good :
    (id : ℕ) (r : Bool) (me : ℕ) (ctx : Option ℕ) (blocking : Bool) (w : Rlock) (d : ℕ → ℕ)
    → Fits (fields w) d
    → Good me d (acquire id r me ctx blocking w)
unfolding acquire
acquire-Good id r me ctx blocking w d h =
    Good-if (is_owned me w.owner) (λ owns. record { fits = Fits-again (fields w) me d owns h })
      (λ other.
        Good-if w.locked (λ busy. Good-if blocking (λ b. slow) (λ b. record { fits = h }))
          (λ unlocked. record {
            fits =
                subst (λ f. Fits f (deeper acquired me d)) (sym (fields-take_lock id r me ctx w))
                  (Fits-taken (fields w) me d unlocked h);
          }))
  where
    slow : Good me d (slow_path id r ctx w)
    slow =
        let (same, ne) = fields-slow_path id r ctx w in
        record { fits = idle _ me d _ ne (subst (λ f. Fits f d) (sym same) h) }

spin-Good :
    (id : ℕ) (r : Bool) (me t : ℕ) (stopped : Bool) (w : Rlock) (d : ℕ → ℕ)
    → Fits (fields w) d
    → Good me d (spin id r me t stopped w)
unfolding spin
spin-Good id r me t stopped w d h =
    Good-if w.locked
      (λ busy.
        Good-if stopped (λ s. record { fits = subst (λ f. Fits f d) (sym (fields-on_graph _ w)) h })
          (λ s. record { fits = h }))
      (λ unlocked. record {
        fits =
            subst (λ f. Fits f (deeper acquired me d))
              (sym (
                fields-report r _ _
                ∙ ap (λ f. (f.0, some me, 1)) (fields-on_graph _ _ ∙ fields-on_graph _ _)))
              (Fits-taken (fields w) me d unlocked h);
      })

os_return-Good :
    (id : ℕ) (r : Bool) (me : ℕ) (ctx : Option ℕ) (result : Bool) (w : Rlock) (d : ℕ → ℕ)
    → (result ≡ true → w.locked ≡ false)
    → Fits (fields w) d
    → Good me d (os_return id r me ctx result w)
unfolding os_return
os_return-Good id r me ctx result w d granted h =
    Good-if result
      (λ yes. record {
        fits =
            subst (λ f. Fits f (deeper acquired me d)) (sym (fields-take_lock id r me ctx w))
              (Fits-taken (fields w) me d (granted yes) h);
      })
      (λ no. record { fits = h })

Fits-last :
    (l : Bool) (o : Option ℕ) (me : ℕ) (d : ℕ → ℕ)
    → is_owned me o ≡ true
    → Fits (l, o, 1) d
    → Fits (false, none, 0) (shallower true me d)
Fits-last l none me d owns h = absurd (ground arith)
Fits-last l (some o) me d owns h = (refl, ground arith, λ t. ground (arith, h.2 t))

Fits-less :
    (l : Bool) (o : Option ℕ) (n me : ℕ) (d : ℕ → ℕ)
    → is_owned me o ≡ true
    → Fits (l, o, suc (suc n)) d
    → Fits (l, o, suc n) (shallower true me d)
Fits-less l none n me d owns h = absurd (ground arith)
Fits-less l (some o) n me d owns h = (h.0, ground (arith, h.1), λ t. ground (arith, h.2 t))

Fits-held :
    (l : Bool) (o : Option ℕ) (me : ℕ) (d : ℕ → ℕ) → is_owned me o ≡ true → Fits (l, o, 0) d → ⊥
Fits-held l none me d owns h = ground arith
Fits-held l (some o) me d owns h = ground (arith, h.0, h.1)

Fits-down :
    (id : ℕ) (r : Bool) (me : ℕ) (w : Rlock) (d : ℕ → ℕ) (n : ℕ)
    → is_owned me w.owner ≡ true
    → Fits (w.locked, w.owner, n) d
    → Fits (fields (count_down id r n w)) (shallower true me d)
Fits-down id r me w d zero owns h = absurd (Fits-held w.locked w.owner me d owns h)
Fits-down id r me w d (suc zero) owns h =
    subst (λ f. Fits f (shallower true me d)) (sym (fields-let_go id r (record w { count = 0 })))
      (Fits-last w.locked w.owner me d owns h)
Fits-down id r me w d (suc (suc n)) owns h = Fits-less w.locked w.owner n me d owns h

release-Fits :
    (id : ℕ) (r : Bool) (me : ℕ) (w : Rlock) (d : ℕ → ℕ)
    → Fits (fields w) d
    → Fits (fields (release id r me w).1) (shallower (release id r me w).0 me d)
unfolding release
release-Fits id r me w d h = by (is_owned me w.owner) (λ owns. Fits-down id r me w d w.count owns h)
  where
    by :
        (b : Bool)
        → (b ≡ true → Fits (fields (count_down id r w.count w)) (shallower true me d))
        → Fits
            (fields
              (if◌then◌else◌ {A = Bool × Rlock} b (true, count_down id r w.count w) (false, w)).1)
            (shallower
              (if◌then◌else◌ {A = Bool × Rlock} b (true, count_down id r w.count w) (false, w)).0
              me
              d)
    by true k = k refl
    by false k = h

run-Fits :
    {id : ℕ} {reports : Bool} {w : Rlock} {d : ℕ → ℕ} → Run id reports w d → Fits (fields w) d
unfolding interrupt
run-Fits (start g) = (refl, ground arith, λ t. refl)
run-Fits (call me ctx blocking r) = (acquire-Good _ _ me ctx blocking _ _ (run-Fits r)).fits
run-Fits (look me t stopped r) = (spin-Good _ _ me t stopped _ _ (run-Fits r)).fits
run-Fits (raise {w} {d} t r) = subst (λ f. Fits f d) (sym (fields-on_graph _ w)) (run-Fits r)
run-Fits (back me ctx result granted r) =
    (os_return-Good _ _ me ctx result _ _ granted (run-Fits r)).fits
run-Fits (free me r) = release-Fits _ _ me _ _ (run-Fits r)

-- In every run the real lock is held exactly where there is an owner, and then the count is the
-- owner's calls of `acquire` that returned True less its releases, and every other thread has as
-- many of the one as of the other.
pub Run-depth :
    {id : ℕ} {reports : Bool} {w : Rlock} {d : ℕ → ℕ}
    → Run id reports w d
    → (w.locked ≡ is_some w.owner)
      × (w.locked ≡ ltb 0 w.count)
      × ((t : ℕ) → d t ≡ (if is_owned t w.owner then w.count else 0))
Run-depth r = run-Fits r
