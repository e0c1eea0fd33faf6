-- ===== src/ExploreDpor/Summary.antt =====
-- frontrun/dpor.py, explore_dpor: a result as a summary of the executions, the latest first.
use frontrun.Prelude.{
  ℕ, suc, ◌≤◌, ◌≡◌, refl, ap, ◌∙◌, false, not, ◌&&◌, Option, none, some, List, [], ◌∷◌, ◌++◌,
  if◌then◌else◌, nat_eq, ◌==◌, ltb, length, is_some, arith,
}
use mathlib.Core.Option
use mathlib.Core.Path.{subst}
use frontrun.Explore.{InterleavingResult, Explanation}
use frontrun.ExploreDpor.{Options, explored, or_first}

-- An execution after which the invariant did not hold: its schedule and what was recorded.
abbrev pub Verdict : Type 0 → Type 0
Verdict Events = Option (List ℕ × Events)

module _ {Events : Type 0} where
  abbrev pub failures_of : List (Verdict Events) → List (ℕ × List ℕ)
  failures_of [] = []
  failures_of (none ∷ vs) = failures_of vs
  failures_of (some (schedule, events) ∷ vs) = failures_of vs ++ ((suc (length vs), schedule) ∷ [])

  abbrev pub numbered : ℕ → Verdict Events → Option (ℕ × List ℕ × Events)
  numbered n none = none
  numbered n (some (schedule, events)) = some (n, schedule, events)

  abbrev pub or_later :
      Option (ℕ × List ℕ × Events) → Option (ℕ × List ℕ × Events) → Option (ℕ × List ℕ × Events)
  or_later none later = later
  or_later (some first) later = some first

  -- The first execution that failed, with its number.
  abbrev pub first_of : List (Verdict Events) → Option (ℕ × List ℕ × Events)
  first_of [] = none
  first_of (v ∷ vs) = or_later (first_of vs) (numbered (suc (length vs)) v)

  abbrev pub source : Explanation Events → ℕ × Events
  source x = (x.num_explored, x.events)

  abbrev pub schedule_of : ℕ × List ℕ × Events → List ℕ
  schedule_of (n, schedule, events) = schedule

  abbrev pub source_of : ℕ × List ℕ × Events → ℕ × Events
  source_of (n, schedule, events) = (n, events)

  -- The result names this failure as the first, if there is one.
  pub record IsFirst (options : Options) (first : Option (ℕ × List ℕ × Events))
      (r : InterleavingResult Events) : Type 0 where
    pub property_holds : r.property_holds ≡ not (is_some first)
    pub counterexample : r.counterexample ≡ Option.map schedule_of first
    pub explanation : Option.map source r.explanation ≡ Option.map source_of first
    pub attempts :
        r.reproduction_attempts ≡ (if is_some first then options.reproduce_on_failure else 0)

  pub record IsSummary (options : Options) (vs : List (Verdict Events))
      (r : InterleavingResult Events) : Type 0 where
    pub num_explored : r.num_explored ≡ length vs
    pub failures : r.failures ≡ failures_of vs
    pub first : IsFirst options (first_of vs) r
    pub successes : r.reproduction_successes ≤ r.reproduction_attempts

  -- What a failure records, where `r` has counted the execution.
  pub record IsRecorded (options : Options) (schedule : List ℕ) (events : Events)
      (r r' : InterleavingResult Events) : Type 0 where
    pub num_explored : r'.num_explored ≡ r.num_explored
    pub failures : r'.failures ≡ r.failures ++ ((r.num_explored, schedule) ∷ [])
    pub property_holds : r'.property_holds ≡ false
    pub counterexample : r'.counterexample ≡ or_first r.counterexample schedule
    pub explanation :
        Option.map source r'.explanation
        ≡ some (elim r.explanation [ none ↦ (r.num_explored, events) | some x ↦ source x ])
    pub attempts : r'.reproduction_attempts ≡ (
        if ltb 0 options.reproduce_on_failure && (r.reproduction_attempts == 0)
        then options.reproduce_on_failure
        else r.reproduction_attempts)
    pub successes :
        r.reproduction_successes ≤ r.reproduction_attempts
        → r'.reproduction_successes ≤ r'.reproduction_attempts

  module _ (options : Options) (r : InterleavingResult Events) where
    explored-IsFirst :
        (first : Option (ℕ × List ℕ × Events))
        → IsFirst options first r
        → IsFirst options (or_later first none) (explored r)
    explored-IsFirst none h = record {
      property_holds = h.property_holds;
      counterexample = h.counterexample;
      explanation = h.explanation;
      attempts = h.attempts;
    }
    explored-IsFirst (some x) h = record {
      property_holds = h.property_holds;
      counterexample = h.counterexample;
      explanation = h.explanation;
      attempts = h.attempts;
    }

    explained_by :
        (x : Option (Explanation Events)) (y z : ℕ × Events)
        → Option.map source x ≡ none
        → some (elim x [ none ↦ y | some e ↦ source e ]) ≡ some y
    explained_by none y z h = refl
    explained_by (some e) y z h = cc h

    explained_before :
        (x : Option (Explanation Events)) (y z : ℕ × Events)
        → Option.map source x ≡ some z
        → some (elim x [ none ↦ y | some e ↦ source e ]) ≡ some z
    explained_before none y z h = cc h
    explained_before (some e) y z h = h

    recorded-IsFirst :
        (first : Option (ℕ × List ℕ × Events)) (schedule : List ℕ) (events : Events)
        (r' : InterleavingResult Events)
        → IsRecorded options schedule events r r'
        → IsFirst options first r
        → IsFirst options (or_later first (some (r.num_explored, schedule, events))) r'
    recorded-IsFirst none schedule events r' k h = record {
      property_holds = k.property_holds;
      counterexample = k.counterexample ∙ ap (λ c. or_first c schedule) h.counterexample;
      explanation =
          k.explanation
          ∙ explained_by r.explanation (r.num_explored, events) (r.num_explored, events)
              h.explanation;
      attempts = ground (arith, k.attempts, h.attempts);
    }
    recorded-IsFirst (some x) schedule events r' k h = record {
      property_holds = k.property_holds;
      counterexample = k.counterexample ∙ ap (λ c. or_first c schedule) h.counterexample;
      explanation =
          k.explanation
          ∙ explained_before r.explanation (r.num_explored, events) (source_of x) h.explanation;
      attempts = ground (arith, k.attempts, h.attempts);
    }

  counted-IsFirst :
      (options : Options) (r : InterleavingResult Events) (first : Option (ℕ × List ℕ × Events))
      → IsFirst options first r
      → IsFirst options first (explored r)
  counted-IsFirst options r first h = record {
    property_holds = h.property_holds;
    counterexample = h.counterexample;
    explanation = h.explanation;
    attempts = h.attempts;
  }

  module _ (options : Options) (r : InterleavingResult Events) (vs : List (Verdict Events))
      (h : IsSummary options vs r) where
    pub explored-IsSummary : IsSummary options (none ∷ vs) (explored r)
    explored-IsSummary = record {
      num_explored = ap suc h.num_explored;
      failures = h.failures;
      first = explored-IsFirst options r (first_of vs) h.first;
      successes = h.successes;
    }

    pub recorded-IsSummary :
        (schedule : List ℕ) (events : Events) (r' : InterleavingResult Events)
        → IsRecorded options schedule events (explored r) r'
        → IsSummary options (some (schedule, events) ∷ vs) r'
    recorded-IsSummary schedule events r' k = record {
      num_explored = k.num_explored ∙ ap suc h.num_explored;
      failures =
          k.failures
          ∙ ap (λ l. l ++ ((suc r.num_explored, schedule) ∷ [])) h.failures
          ∙ ap (λ n. failures_of vs ++ ((suc n, schedule) ∷ [])) h.num_explored;
      first =
          subst (λ n. IsFirst options (or_later (first_of vs) (some (suc n, schedule, events))) r')
            h.num_explored
            (recorded-IsFirst options (explored r) (first_of vs) schedule events r' k
              (counted-IsFirst options r (first_of vs) h.first));
      successes = k.successes h.successes;
    }
