-- ===== src/PreloadBridge.antt =====
-- frontrun/dpor.py, _PreloadBridge: I/O events are routed to the threads that drain them. Each
-- method's body under the lock is one step. The key of a resource is a parameter.
pub mod Threads
pub mod Routing
mod Tests
use frontrun.Prelude.{
  ℕ, Bool, true, false, not, Option, none, some, List, [], ◌∷◌, ◌++◌, String, string_eq, nat_eq,
  ◌==◌, if◌then◌else◌, lookup, put, delete,
}

pub record IoEvent : Type 0 where
  pub kind : String
  pub tid : ℕ
  pub resource_id : String

-- `(object_key, kind, resource_id)`
abbrev pub Entry : Type 0
Entry = ℕ × String × String

pub record Bridge : Type 0 where
  pub tid_to_dpor : List (ℕ × ℕ)
  pub pending : List (ℕ × List Entry)
  pub active : Bool

abbrev pub new : Bridge
new = record { tid_to_dpor = []; pending = []; active = false }

abbrev pub entries : Option (List Entry) → List Entry
entries none = []
entries (some es) = es

-- `self._pending.get(dpor_id)`, and [] where it is missing
abbrev pub pending_at : ℕ → Bridge → List Entry
pending_at d b = entries (lookup d b.pending)

abbrev pub is_empty : List (ℕ × ℕ) → Bool
is_empty [] = true
is_empty (x ∷ m) = false

unfoldable pub register_thread : ℕ → ℕ → Bridge → Bridge
register_thread os_tid dpor_id b = record {
  tid_to_dpor = put os_tid dpor_id b.tid_to_dpor;
  pending = put dpor_id (pending_at dpor_id b) b.pending;
  active = true;
}

unfoldable pub unregister_thread : ℕ → Bridge → Bridge
unregister_thread os_tid b =
    let left = delete os_tid b.tid_to_dpor in
    record b { tid_to_dpor = left; active = if is_empty left then false else b.active }

unfoldable pub clear : Bridge → Bridge
clear b = record { tid_to_dpor = []; pending = []; active = false }

-- `_make_object_key(hash(resource_id), resource_id)`
module _ (object_key : String → ℕ) where
  abbrev pub entry_of : IoEvent → Entry
  entry_of e =
      (object_key e.resource_id, (if e.kind == "write" then "write" else "read"), e.resource_id)

  abbrev pub buffer : IoEvent → Bridge → Option ℕ → Bridge
  buffer e b none = b
  buffer e b (some d) = record b { pending = put d (pending_at d b ++ (entry_of e ∷ [])) b.pending }

  unfoldable pub listener : IoEvent → Bridge → Bridge
  listener e b =
      if b.active
      then (if e.kind == "close" then b else buffer e b (lookup e.tid b.tid_to_dpor))
      else b

  -- The events that the dispatcher's `poll` hands to the listener.
  unfoldable pub poll : List IoEvent → Bridge → Bridge
  poll [] b = b
  poll (e ∷ es) b = poll es (listener e b)

  abbrev pub take_pending : ℕ → Bridge → Option (List Entry) → List Entry × Bridge
  take_pending d b (some (e ∷ es)) = (e ∷ es, record b { pending = put d [] b.pending })
  take_pending d b _ = ([], b)

  -- `flushed` is what the pipe still holds, nothing where there is no dispatcher.
  unfoldable pub drain : List IoEvent → ℕ → Bridge → List Entry × Bridge
  drain flushed d b = let b' = poll flushed b in take_pending d b' (lookup d b'.pending)
