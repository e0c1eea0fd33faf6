-- ===== src/Trace.antt =====
-- frontrun/_trace_format.py: the recorded events of a failing run, and the source lines made of
-- them. A source line's text (linecache) is a parameter.
pub mod Condense
pub mod Spots
pub mod Accesses
pub mod Conflicts
pub mod Classify
pub mod Witnessed
pub mod Grouped
pub mod Shown
pub mod Cap
pub mod Collapse
pub mod Halves
mod Tests
use frontrun.Prelude.{
  ℕ, suc, ◌+◌, ◌≡◌, ◌↔◌, Bool, true, false, ◌&&◌, Option, none, some, List, [], ◌∷◌, ◌++◌, String,
  arith, Eq, ◌==◌, string_eq, nat_eq, if◌then◌else◌, is_some, keep,
}

-- The strings "read", "write" and "read+write", and any other.
pub data Access : Type 0 where
  read write read_write : Access
  other : String → Access

pub record TraceEvent : Type 0 where
  pub step_index : ℕ
  pub thread_id : ℕ
  pub filename : String
  pub lineno : ℕ
  pub function_name : String
  pub opcode : String
  pub access_type : Option Access
  pub attr_name : Option String
  pub obj_type_name : Option String
  pub call_chain : Option (List String)

pub record SourceLineEvent : Type 0 where
  pub thread_id : ℕ
  pub filename : String
  pub lineno : ℕ
  pub function_name : String
  pub source_line : String
  pub access_type : Option Access
  pub attr_name : Option String
  pub obj_type_name : Option String
  pub call_chain : Option (List String)

-- `(obj_type_name, attr_name)`
abbrev pub Key : Type 0
Key = Option String × Option String

abbrev pub name_beq : Option String → Option String → Bool
name_beq none none = true
name_beq (some a) (some b) = a == b
name_beq _ _ = false

pub name_beq_iff : (a b : Option String) → (name_beq a b ≡ true) ↔ (a ≡ b)
name_beq_iff none none = ground arith
name_beq_iff (some a) (some b) = ground (arith, string_eq.beq_iff a b)
name_beq_iff _ _ = ground arith

abbrev pub key_beq : Key → Key → Bool
key_beq (a, b) (c, d) = name_beq a c && name_beq b d

pub key_beq_iff : (a b : Key) → (key_beq a b ≡ true) ↔ (a ≡ b)
key_beq_iff (a, b) (c, d) = ground (arith, name_beq_iff a c, name_beq_iff b d)

instance abbrev pub key_eq : Eq Key
key_eq = record { beq = key_beq; beq_iff = key_beq_iff }

-- The fields of a TraceRecorder.
pub record Recorder : Type 0 where
  pub events : List TraceEvent
  pub step : ℕ
  pub enabled : Bool

abbrev pub recorder : Bool → Recorder
recorder on = record { events = []; step = 0; enabled = on }

-- The event's own step_index is replaced by the recorder's.
unfoldable pub record_event : TraceEvent → Recorder → Recorder
record_event ev r =
    if r.enabled
    then record r {
      events = r.events ++ (record ev { step_index = r.step } ∷ []);
      step = suc r.step;
    }
    else r

unfoldable pub filter_to_shared_accesses : List TraceEvent → List TraceEvent
filter_to_shared_accesses events = keep (λ ev. is_some ev.access_type) events

-- The chain of tests that merges an event's access type into the last entry's.
abbrev pub merge_access : Option Access → Option Access → Option Access
merge_access last none = last
merge_access none (some a) = some a
merge_access (some read) (some write) = some read_write
merge_access (some write) (some read) = some read_write
merge_access (some l) (some a) = some l

-- `if ev.name is not None and last.name is None: last.name = ev.name`
abbrev pub fill_name : Option String → Option String → Option String
fill_name none ev = ev
fill_name (some l) ev = some l

abbrev pub absorb : TraceEvent → SourceLineEvent → SourceLineEvent
absorb ev last = record last {
  access_type = merge_access last.access_type ev.access_type;
  attr_name = fill_name last.attr_name ev.attr_name;
  obj_type_name = fill_name last.obj_type_name ev.obj_type_name;
}

-- `same_line and same_key`, against the event that opened the last entry
abbrev pub same_entry : TraceEvent → TraceEvent → Bool
same_entry prev ev =
    (ev.thread_id == prev.thread_id && (ev.lineno == prev.lineno && ev.filename == prev.filename))
    && key_beq (ev.obj_type_name, ev.attr_name) (prev.obj_type_name, prev.attr_name)

module _ (get_line : String → ℕ → String) where
  abbrev pub line_of : TraceEvent → SourceLineEvent
  line_of ev = record {
    thread_id = ev.thread_id;
    filename = ev.filename;
    lineno = ev.lineno;
    function_name = ev.function_name;
    source_line = get_line ev.filename ev.lineno;
    access_type = ev.access_type;
    attr_name = ev.attr_name;
    obj_type_name = ev.obj_type_name;
    call_chain = ev.call_chain;
  }

  -- The rest of the loop: `last` is `result[-1]`, and `prev` the event that opened it.
  unfoldable pub deduplicate_from :
      SourceLineEvent → TraceEvent → List TraceEvent → List SourceLineEvent
  deduplicate_from last prev [] = last ∷ []
  deduplicate_from last prev (ev ∷ events) = elim (same_entry prev ev) [
    | true ↦ deduplicate_from (absorb ev last) prev events
    | false ↦ last ∷ deduplicate_from (line_of ev) ev events
  ]

  unfoldable pub deduplicate_to_source_lines : List TraceEvent → List SourceLineEvent
  deduplicate_to_source_lines [] = []
  deduplicate_to_source_lines (ev ∷ events) = deduplicate_from (line_of ev) ev events
