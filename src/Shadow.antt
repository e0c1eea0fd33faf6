-- ===== src/Shadow.antt =====
-- frontrun/dpor.py, ShadowStack and the reports of `_process_opcode`: the values that the handlers
-- see, the stack that they keep, and what they tell the engine and the trace recorder.
pub mod Ops
pub mod Calls
pub mod Instruction
pub mod Process
pub mod Conflicts
pub mod Iterate
mod Tests
use frontrun.Prelude.{
  ℕ, zero, suc, ◌+◌, ◌-◌, ◌<◌, Bool, true, false, ◌&&◌, not, Option, none, some, List, [], ◌∷◌,
  ◌++◌, String, if◌then◌else◌, get_elem?, length, leb, is_some,
}

-- An object of the program by its identity, or one of the lists that GET_ITER makes to mark an
-- iterator, by its number.
pub data Object : Type 0 where
  object : ℕ → Object
  marker : ℕ → Object

-- An entry of the stack; `none` is Python's None.
abbrev pub Value : Type 0
Value = Option Object

pub data Access : Type 0 where
  read write : Access

-- `engine.report_access(…)`: the object and the name make the key.
pub record Report : Type 0 where
  pub access : Access
  pub target : Object
  pub name : String

-- One thread's shadow stack, the top first; the markers, each a container and its counter; what the
-- engine was told; and what the recorder was told of attributes and subscripts.
pub record Shadow : Type 0 where
  pub stack : List Value
  pub markers : List (Object × ℕ)
  pub reports : List Report
  pub notes : List Report

-- What `type(item)` and the table of container constructors say of a value that may be called.
pub data Callable : Type 0 where
  builtin_method method_wrapper constructor wrapper_descriptor other_callable : Callable

-- What the interpreter answers at the time of an instruction. It is not this program's code.
pub record Runtime : Type 0 where
  -- `isinstance(obj, _IMMUTABLE_TYPES)`
  pub is_immutable : Object → Bool
  -- `object.__getattribute__(obj, "__dict__")`; none is AttributeError
  pub dict_of : Object → Value
  -- `getattr(obj, attr)`; the outer none is an exception
  pub get_attr : Object → String → Option Value
  pub callable : Object → Callable
  -- the name, with its module, of a function that the passthrough table may have
  pub function_name : Object → String
  -- `getattr(item, "__self__", None)` and `getattr(item, "__name__", None)`
  pub self_of : Object → Value
  pub name_of : Object → Option String
  -- `objclass is not None and not issubclass(objclass, _IMMUTABLE_TYPES)`
  pub has_mutable_objclass : Object → Bool
  -- the text, if the value is a `str`, and `repr`
  pub text_of : Value → Option String
  pub repr : Value → String
  pub repr_index : ℕ → String
  -- `range(*key.indices(len(container)))`, or [] where the key is no slice or there is no length
  pub slice_indices : Object → Value → List ℕ
  -- `slice(start, stop)` and `slice(start, stop, step)`; None after an exception
  pub slice_of : List Value → Value

-- The frame of the instruction: its dictionaries by `get`, the dictionary of globals and the code as
-- objects, and which names are free or cell variables.
pub record Frame : Type 0 where
  pub locals : String → Value
  pub globals : String → Value
  pub builtins : String → Value
  pub globals_dict : Object
  pub code : Object
  pub is_cell : String → Bool

abbrev pub push : Value → Shadow → Shadow
push v s = record s { stack = v ∷ s.stack }

abbrev pub top_of : List Value → Value
top_of [] = none
top_of (v ∷ vs) = v

abbrev pub tail_of : List Value → List Value
tail_of [] = []
tail_of (v ∷ vs) = vs

-- `pop`: the value, None where the stack is empty, and what is left.
abbrev pub popped : Shadow → Value
popped s = top_of s.stack

abbrev pub pop : Shadow → Shadow
pop s = record s { stack = tail_of s.stack }

-- `peek(n)`
abbrev pub peek : ℕ → Shadow → Value
peek n s = elim (get_elem? s.stack n) [ none ↦ none | some v ↦ v ]

-- `for _ in range(n): shadow.pop()`, and the same with `push(None)`
abbrev pub pop_times : ℕ → List Value → List Value
pop_times zero vs = vs
pop_times (suc n) vs = pop_times n (tail_of vs)

abbrev pub push_times : ℕ → List Value → List Value
push_times zero vs = vs
push_times (suc n) vs = push_times n (none ∷ vs)

-- What `_report_read` and `_report_write` tell the engine of a value: nothing of None.
abbrev pub seen : Access → Value → String → List Report
seen a none name = []
seen a (some o) name = record { access = a; target = o; name = name } ∷ []

abbrev pub report : Access → Value → String → Shadow → Shadow
report a v name s = record s { reports = s.reports ++ seen a v name }

-- A report that is made only where the test holds.
abbrev pub report_if : Bool → Access → Value → String → Shadow → Shadow
report_if test a v name s = record s { reports = s.reports ++ (if test then seen a v name else []) }

-- `if recorder is not None and obj is not None: recorder.record(…)`
abbrev pub note : Bool → Access → Value → String → Shadow → Shadow
note has_recorder a v name s = record s {
  notes = s.notes ++ (if has_recorder then seen a v name else []);
}

-- `v is not None and not isinstance(v, _IMMUTABLE_TYPES)`
abbrev pub is_mutable : Runtime → Value → Bool
is_mutable rt none = false
is_mutable rt (some o) = not (rt.is_immutable o)

-- The name that stands for the whole of a container.
abbrev pub whole : String
whole = "__cmethods__"
