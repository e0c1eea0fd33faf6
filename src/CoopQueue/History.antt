-- ===== src/CoopQueue/History.antt =====
-- frontrun/_cooperative.py, CooperativeQueue: the calls that return, and the queue inside.
use frontrun.Prelude.{
  Bool, true, false, Option, none, some, List, [], ◌∷◌, ◌++◌, ◌≡◌, refl, sym, if◌then◌else◌, not,
}
use mathlib.Core.List.{append-nil}
use mathlib.Core.Path.{subst}
use frontrun.CoopQueue.{
  Inner, Answer, got, done, empty, full, aborted, sleeping, looping, taken, stored, goes_on, get,
  get_round, get_woken, get_nowait, put, put_round, put_woken, put_nowait,
}

-- What a call that has returned did.
pub data Event (Item : Type 0) : Type 0 where
  took stored_item : Item → Event Item

-- A stretch of a call, up to its next turn.
pub data Call (Item : Type 0) : Type 0 where
  get_begins : (block managed : Bool) → Call Item
  get_rounds : (error finished late : Bool) → Call Item
  get_wakes get_tries : Call Item
  put_begins : (block managed : Bool) → Item → Call Item
  put_rounds : (error finished late : Bool) → Item → Call Item
  put_wakes put_tries : Item → Call Item

module _ {Item : Type 0} where
  abbrev pub of_get : Answer Item → List (Event Item)
  of_get (got x) = took x ∷ []
  of_get _ = []

  abbrev pub of_put : Item → Answer Item → List (Event Item)
  of_put x done = stored_item x ∷ []
  of_put x _ = []

  -- The event of a stretch that ends in a return.
  abbrev pub returned : Call Item → Answer Item → List (Event Item)
  returned (get_begins block managed) a = of_get a
  returned (get_rounds error finished late) a = of_get a
  returned get_wakes a = of_get a
  returned get_tries a = of_get a
  returned (put_begins block managed x) a = of_put x a
  returned (put_rounds error finished late x) a = of_put x a
  returned (put_wakes x) a = of_put x a
  returned (put_tries x) a = of_put x a

module _ {Item Q : Type 0} (inner : Inner Item Q) where
  abbrev pub perform : Call Item → Q → Answer Item × Q
  perform (get_begins block managed) q = get inner block managed q
  perform (get_rounds error finished late) q = get_round inner error finished late q
  perform get_wakes q = get_woken inner q
  perform get_tries q = get_nowait inner q
  perform (put_begins block managed x) q = put inner block managed x q
  perform (put_rounds error finished late x) q = put_round inner error finished late x q
  perform (put_wakes x) q = put_woken inner x q
  perform (put_tries x) q = put_nowait inner x q

  -- The queue inside does the events, one after the other.
  pub data IsHistory (q : Q) : List (Event Item) → Q → Type 0 where
    start : IsHistory q [] q
    takes :
        {es : List (Event Item)} {r r' : Q} {x : Item}
        → IsHistory q es r
        → inner.get r ≡ some (x, r')
        → IsHistory q (es ++ (took x ∷ [])) r'
    stores :
        {es : List (Event Item)} {r r' : Q} {x : Item}
        → IsHistory q es r
        → inner.put x r ≡ some r'
        → IsHistory q (es ++ (stored_item x ∷ [])) r'

  -- Stretches of calls by any threads, in any order, and the events of those that returned.
  pub data Run (q : Q) : List (Event Item) → Q → Type 0 where
    begun : Run q [] q
    then_call :
        {es : List (Event Item)} {r r' : Q} {a : Answer Item} (c : Call Item)
        → perform c r ≡ (a, r')
        → Run q es r
        → Run q (es ++ returned c a) r'

  module _ {q : Q} {es : List (Event Item)} {r : Q} (h : IsHistory q es r) where
    unchanged : IsHistory q (es ++ []) r
    unchanged = subst (λ l. IsHistory q l r) (sym (append-nil es)) h

    -- An answer that is no return.
    abbrev IsNoReturn : Answer Item → Type 0
    IsNoReturn (got x) = ⊥
    IsNoReturn done = ⊥
    IsNoReturn _ = Unit

    taken-IsHistory :
        (o : Option (Item × Q)) (otherwise : Answer Item)
        → inner.get r ≡ o
        → IsNoReturn otherwise
        → IsHistory q (es ++ of_get (taken inner o otherwise r).0) (taken inner o otherwise r).1
    taken-IsHistory (some (x, r')) otherwise e k = takes h e
    taken-IsHistory none (got x) e k = absurd k
    taken-IsHistory none done e k = absurd k
    taken-IsHistory none empty e k = unchanged
    taken-IsHistory none full e k = unchanged
    taken-IsHistory none aborted e k = unchanged
    taken-IsHistory none sleeping e k = unchanged
    taken-IsHistory none looping e k = unchanged

    stored-IsHistory :
        (x : Item) (o : Option Q) (otherwise : Answer Item)
        → inner.put x r ≡ o
        → IsNoReturn otherwise
        → IsHistory q (es ++ of_put x (stored inner o otherwise r).0) (stored inner o otherwise r).1
    stored-IsHistory x (some r') otherwise e k = stores h e
    stored-IsHistory x none (got y) e k = absurd k
    stored-IsHistory x none done e k = absurd k
    stored-IsHistory x none empty e k = unchanged
    stored-IsHistory x none full e k = unchanged
    stored-IsHistory x none aborted e k = unchanged
    stored-IsHistory x none sleeping e k = unchanged
    stored-IsHistory x none looping e k = unchanged

    at_begin :
        (block managed : Bool) (a : Answer Item)
        → IsNoReturn a
        → IsNoReturn (if not block then a else if managed then looping else sleeping)
    at_begin true true a k = tt
    at_begin true false a k = tt
    at_begin false managed a k = k

    in_round :
        (finished late : Bool) (a : Answer Item)
        → IsNoReturn a
        → IsNoReturn (goes_on inner finished late a)
    in_round true late a k = tt
    in_round false true a k = k
    in_round false false a k = tt

    perform-IsHistory :
        (c : Call Item) → IsHistory q (es ++ returned c (perform c r).0) (perform c r).1
    unfolding get get_round get_woken get_nowait put put_round put_woken put_nowait
    perform-IsHistory (get_begins block managed) =
        taken-IsHistory (inner.get r) _ refl (at_begin block managed empty tt)
    perform-IsHistory (get_rounds true finished late) = unchanged
    perform-IsHistory (get_rounds false finished late) =
        taken-IsHistory (inner.get r) _ refl (in_round finished late empty tt)
    perform-IsHistory get_wakes = taken-IsHistory (inner.get r) empty refl tt
    perform-IsHistory get_tries = taken-IsHistory (inner.get r) empty refl tt
    perform-IsHistory (put_begins block managed x) =
        stored-IsHistory x (inner.put x r) _ refl (at_begin block managed full tt)
    perform-IsHistory (put_rounds true finished late x) = unchanged
    perform-IsHistory (put_rounds false finished late x) =
        stored-IsHistory x (inner.put x r) _ refl (in_round finished late full tt)
    perform-IsHistory (put_wakes x) = stored-IsHistory x (inner.put x r) full refl tt
    perform-IsHistory (put_tries x) = stored-IsHistory x (inner.put x r) full refl tt

  -- In every run of calls by any threads, what the calls that returned did, in the order of their
  -- returns, is a history of the queue inside: no call that raised or still loops has changed it.
  pub Run-IsHistory : {q : Q} {es : List (Event Item)} {r : Q} → Run q es r → IsHistory q es r
  Run-IsHistory begun = start
  Run-IsHistory {q} (then_call {es} {r} c e run) =
      subst (λ (x : Answer Item × Q). IsHistory q (es ++ returned c x.0) x.1) e
        (perform-IsHistory (Run-IsHistory run) c)
