-- ===== src/Dpor/Log.antt =====
-- What the calls of the engine and the execution say, read in order.
use frontrun.Prelude.{
  ℕ, ◌≡◌, refl, sym, ap, ◌∙◌, Bool, true, false, Option, none, some, List, [], ◌∷◌, ◌++◌, map, All,
  String, string_eq, nat_eq, ◌==◌, if◌then◌else◌, arith,
}
use mathlib.Core.List.{append_assoc}
use frontrun.Shadow.{Report}
use frontrun.Dpor.{Call, scheduled, access, io, sync, block, unblock, finish}

abbrev pub to_list : Option ℕ → List ℕ
to_list none = []
to_list (some t) = t ∷ []

-- The threads that the engine chose, in order.
abbrev pub decisions : List Call → List ℕ
decisions [] = []
decisions (scheduled d ∷ cs) = to_list d ++ decisions cs
decisions (access t r ∷ cs) = decisions cs
decisions (io t k kind ∷ cs) = decisions cs
decisions (sync t e o ∷ cs) = decisions cs
decisions (block t ∷ cs) = decisions cs
decisions (unblock t ∷ cs) = decisions cs
decisions (finish t ∷ cs) = decisions cs

-- The last decision, where `d` was the one before the calls.
abbrev pub decision_after : Option ℕ → List Call → Option ℕ
decision_after d [] = d
decision_after d (scheduled e ∷ cs) = decision_after e cs
decision_after d (access t r ∷ cs) = decision_after d cs
decision_after d (io t k kind ∷ cs) = decision_after d cs
decision_after d (sync t e o ∷ cs) = decision_after d cs
decision_after d (block t ∷ cs) = decision_after d cs
decision_after d (unblock t ∷ cs) = decision_after d cs
decision_after d (finish t ∷ cs) = decision_after d cs

-- Every access is by the thread of the last decision before it.
abbrev pub InTurn : Option ℕ → List Call → Type 0
InTurn d [] = Unit
InTurn d (scheduled e ∷ cs) = InTurn e cs
InTurn d (access t r ∷ cs) = (d ≡ some t) × InTurn d cs
InTurn d (io t k kind ∷ cs) = InTurn d cs
InTurn d (sync t e o ∷ cs) = InTurn d cs
InTurn d (block t ∷ cs) = InTurn d cs
InTurn d (unblock t ∷ cs) = InTurn d cs
InTurn d (finish t ∷ cs) = InTurn d cs

-- Whether the thread is blocked after the calls, where `b` says whether it was before.
abbrev pub is_blocked : ℕ → Bool → List Call → Bool
is_blocked t b [] = b
is_blocked t b (scheduled d ∷ cs) = is_blocked t b cs
is_blocked t b (access u r ∷ cs) = is_blocked t b cs
is_blocked t b (io u k kind ∷ cs) = is_blocked t b cs
is_blocked t b (sync u e o ∷ cs) = is_blocked t b cs
is_blocked t b (block u ∷ cs) = is_blocked t (if u == t then true else b) cs
is_blocked t b (unblock u ∷ cs) = is_blocked t (if u == t then false else b) cs
is_blocked t b (finish u ∷ cs) = is_blocked t b cs

-- The I/O events that were reported for the thread.
abbrev pub io_of : ℕ → List Call → List (ℕ × String)
io_of t [] = []
io_of t (scheduled d ∷ cs) = io_of t cs
io_of t (access u r ∷ cs) = io_of t cs
io_of t (io u k kind ∷ cs) = if t == u then (k, kind) ∷ io_of t cs else io_of t cs
io_of t (sync u e o ∷ cs) = io_of t cs
io_of t (block u ∷ cs) = io_of t cs
io_of t (unblock u ∷ cs) = io_of t cs
io_of t (finish u ∷ cs) = io_of t cs

-- A call that neither decides nor accesses.
abbrev pub IsAside : Call → Type 0
IsAside (scheduled d) = ⊥
IsAside (access t r) = ⊥
IsAside (io t k kind) = Unit
IsAside (sync t e o) = Unit
IsAside (block t) = Unit
IsAside (unblock t) = Unit
IsAside (finish t) = Unit

pub decisions-append : (xs ys : List Call) → decisions (xs ++ ys) ≡ decisions xs ++ decisions ys
decisions-append [] ys = refl
decisions-append (scheduled d ∷ xs) ys =
    ap (λ l. to_list d ++ l) (decisions-append xs ys)
    ∙ sym (append_assoc (to_list d) (decisions xs) (decisions ys))
decisions-append (access t r ∷ xs) ys = decisions-append xs ys
decisions-append (io t k kind ∷ xs) ys = decisions-append xs ys
decisions-append (sync t e o ∷ xs) ys = decisions-append xs ys
decisions-append (block t ∷ xs) ys = decisions-append xs ys
decisions-append (unblock t ∷ xs) ys = decisions-append xs ys
decisions-append (finish t ∷ xs) ys = decisions-append xs ys

pub decision_after-append :
    (d : Option ℕ) (xs ys : List Call)
    → decision_after d (xs ++ ys) ≡ decision_after (decision_after d xs) ys
decision_after-append d [] ys = refl
decision_after-append d (scheduled e ∷ xs) ys = decision_after-append e xs ys
decision_after-append d (access t r ∷ xs) ys = decision_after-append d xs ys
decision_after-append d (io t k kind ∷ xs) ys = decision_after-append d xs ys
decision_after-append d (sync t e o ∷ xs) ys = decision_after-append d xs ys
decision_after-append d (block t ∷ xs) ys = decision_after-append d xs ys
decision_after-append d (unblock t ∷ xs) ys = decision_after-append d xs ys
decision_after-append d (finish t ∷ xs) ys = decision_after-append d xs ys

pub InTurn-append :
    (d : Option ℕ) (xs ys : List Call)
    → InTurn d xs
    → InTurn (decision_after d xs) ys
    → InTurn d (xs ++ ys)
InTurn-append d [] ys h k = k
InTurn-append d (scheduled e ∷ xs) ys h k = InTurn-append e xs ys h k
InTurn-append d (access t r ∷ xs) ys h k = (h.0, InTurn-append d xs ys h.1 k)
InTurn-append d (io t key kind ∷ xs) ys h k = InTurn-append d xs ys h k
InTurn-append d (sync t e o ∷ xs) ys h k = InTurn-append d xs ys h k
InTurn-append d (block t ∷ xs) ys h k = InTurn-append d xs ys h k
InTurn-append d (unblock t ∷ xs) ys h k = InTurn-append d xs ys h k
InTurn-append d (finish t ∷ xs) ys h k = InTurn-append d xs ys h k

pub decisions-IsAside : (cs : List Call) → All IsAside cs → decisions cs ≡ []
decisions-IsAside [] h = refl
decisions-IsAside (scheduled d ∷ cs) h = absurd h.0
decisions-IsAside (access t r ∷ cs) h = absurd h.0
decisions-IsAside (io t k kind ∷ cs) h = decisions-IsAside cs h.1
decisions-IsAside (sync t e o ∷ cs) h = decisions-IsAside cs h.1
decisions-IsAside (block t ∷ cs) h = decisions-IsAside cs h.1
decisions-IsAside (unblock t ∷ cs) h = decisions-IsAside cs h.1
decisions-IsAside (finish t ∷ cs) h = decisions-IsAside cs h.1

pub decision_after-IsAside :
    (d : Option ℕ) (cs : List Call) → All IsAside cs → (decision_after d cs ≡ d) × InTurn d cs
decision_after-IsAside d [] h = (refl, tt)
decision_after-IsAside d (scheduled e ∷ cs) h = absurd h.0
decision_after-IsAside d (access t r ∷ cs) h = absurd h.0
decision_after-IsAside d (io t k kind ∷ cs) h = decision_after-IsAside d cs h.1
decision_after-IsAside d (sync t e o ∷ cs) h = decision_after-IsAside d cs h.1
decision_after-IsAside d (block t ∷ cs) h = decision_after-IsAside d cs h.1
decision_after-IsAside d (unblock t ∷ cs) h = decision_after-IsAside d cs h.1
decision_after-IsAside d (finish t ∷ cs) h = decision_after-IsAside d cs h.1

-- The accesses of one thread.
pub decisions-accesses :
    (t : ℕ) (d : Option ℕ) (rs : List Report)
    → (decisions (map (access t) rs) ≡ []) × (decision_after d (map (access t) rs) ≡ d)
decisions-accesses t d [] = (refl, refl)
decisions-accesses t d (r ∷ rs) = decisions-accesses t d rs

pub InTurn-accesses : (t : ℕ) (rs : List Report) → InTurn (some t) (map (access t) rs)
InTurn-accesses t [] = tt
InTurn-accesses t (r ∷ rs) = (refl, InTurn-accesses t rs)

pub is_blocked-append :
    (t : ℕ) (b : Bool) (xs ys : List Call)
    → is_blocked t b (xs ++ ys) ≡ is_blocked t (is_blocked t b xs) ys
is_blocked-append t b [] ys = refl
is_blocked-append t b (scheduled d ∷ xs) ys = is_blocked-append t b xs ys
is_blocked-append t b (access u r ∷ xs) ys = is_blocked-append t b xs ys
is_blocked-append t b (io u k kind ∷ xs) ys = is_blocked-append t b xs ys
is_blocked-append t b (sync u e o ∷ xs) ys = is_blocked-append t b xs ys
is_blocked-append t b (block u ∷ xs) ys = is_blocked-append t (if u == t then true else b) xs ys
is_blocked-append t b (unblock u ∷ xs) ys = is_blocked-append t (if u == t then false else b) xs ys
is_blocked-append t b (finish u ∷ xs) ys = is_blocked-append t b xs ys

pub io_of-append : (t : ℕ) (xs ys : List Call) → io_of t (xs ++ ys) ≡ io_of t xs ++ io_of t ys
io_of-append t [] ys = refl
io_of-append t (scheduled d ∷ xs) ys = io_of-append t xs ys
io_of-append t (access u r ∷ xs) ys = io_of-append t xs ys
io_of-append t (io u k kind ∷ xs) ys = ground (arith, io_of-append t xs ys)
io_of-append t (sync u e o ∷ xs) ys = io_of-append t xs ys
io_of-append t (block u ∷ xs) ys = io_of-append t xs ys
io_of-append t (unblock u ∷ xs) ys = io_of-append t xs ys
io_of-append t (finish u ∷ xs) ys = io_of-append t xs ys
