-- ===== src/Shadow/Calls.antt =====
-- frontrun/dpor.py, the tables of builtins and the CALL handler of `_process_opcode`: which reads and
-- writes a call of C code stands for.
use frontrun.Prelude.{
  ℕ, zero, suc, ◌+◌, ◌-◌, Bool, true, false, ◌&&◌, Option, none, some, List, [], ◌∷◌, ◌++◌, String,
  if◌then◌else◌, get_elem?, length, leb, min, string_eq, contains, lookup, take,
}
use frontrun.Shadow.{
  Object, Value, Access, read, write, Report, Shadow, Callable, builtin_method, method_wrapper,
  constructor, wrapper_descriptor, other_callable, Runtime, seen, is_mutable, whole,
}
use frontrun.Shadow.Ops.{stack_effect, replace_at}

-- `_C_METHOD_READ_ONLY`
unfoldable pub c_method_read_only : List String
c_method_read_only =
    "__contains__" ∷ "__getitem__" ∷ "__getattribute__" ∷ "__len__" ∷ "__iter__" ∷ "__reversed__"
    ∷ "count" ∷ "index" ∷ "get" ∷ "keys" ∷ "values" ∷ "items" ∷ "issubset" ∷ "issuperset"
    ∷ "isdisjoint" ∷ "union" ∷ "intersection" ∷ "difference" ∷ "symmetric_difference" ∷ "copy"
    ∷ "__copy__" ∷ []

-- `_IMMUTABLE_SELF_ARG_READERS`
unfoldable pub immutable_self_arg_readers : List String
immutable_self_arg_readers = "join" ∷ []

-- `(kind, obj_idx, name_idx)` of a passthrough builtin
pub record Passthrough : Type 0 where
  pub kind : Access
  pub obj_idx : ℕ
  pub name_idx : Option ℕ

abbrev pub on_attribute : Access → Passthrough
on_attribute a = record { kind = a; obj_idx = 0; name_idx = some 1 }

abbrev pub on_first : Passthrough
on_first = record { kind = read; obj_idx = 0; name_idx = none }

-- `_PASSTHROUGH_BUILTINS`, by the names of the functions that are registered
unfoldable pub passthrough_builtins : List (String × Passthrough)
passthrough_builtins =
    ("builtins.setattr", on_attribute write)
    ∷ ("builtins.getattr", on_attribute read)
    ∷ ("builtins.delattr", on_attribute write)
    ∷ ("builtins.hasattr", on_attribute read)
    ∷ ("operator.setitem", on_attribute write)
    ∷ ("operator.getitem", on_attribute read)
    ∷ ("operator.delitem", on_attribute write)
    ∷ ("builtins.len", on_first)
    ∷ ("builtins.sorted", on_first)
    ∷ ("builtins.min", on_first)
    ∷ ("builtins.max", on_first)
    ∷ ("builtins.sum", on_first)
    ∷ ("builtins.any", on_first)
    ∷ ("builtins.all", on_first)
    ∷ ("builtins.next", on_first)
    ∷ ("functools.reduce", record { kind = read; obj_idx = 1; name_idx = none })
    ∷ []

-- What the scan of a call finds: the reports, the source of a constructor's result, and whether the
-- loop is left by `break`.
pub record Found : Type 0 where
  pub seen_by_call : List Report
  pub source : Value
  pub stops : Bool

abbrev pub found : List Report → Value → Found
found rs source = record { seen_by_call = rs; source = source; stops = true }

abbrev pub go_on : Found
go_on = record { seen_by_call = []; source = none; stops = false }

-- `shadow.stack[-(argc - j)]` for j < argc; the outer none is IndexError.
abbrev pub argument : List Value → ℕ → ℕ → Option Value
argument stack argc j = get_elem? stack (argc - j - 1)

abbrev pub with_argument : Option Value → (Value → Option Found) → Option Found
with_argument none f = none
with_argument (some v) f = f v

abbrev pub in_list : Option String → List String → Bool
in_list none names = false
in_list (some n) names = contains n names

-- `if name in _C_METHOD_READ_ONLY: read, else: write`
unfoldable pub method_access : Option String → Access
method_access name = if in_list name c_method_read_only then read else write

module _ (rt : Runtime) (stack : List Value) (argc : ℕ) where
  -- A report of a target that is neither None nor immutable.
  abbrev pub if_mutable : Access → Value → String → List Report
  if_mutable a v name = if is_mutable rt v then seen a v name else []

  abbrev pub or_whole : Option String → String
  or_whole none = whole
  or_whole (some name) = name

  abbrev pub name_from : Option Value → Option String
  name_from none = none
  name_from (some raw) = some (or_whole (rt.text_of raw))

  -- The name of the attribute; the outer none is IndexError.
  unfoldable pub attr_of : Option ℕ → Option String
  attr_of none = some whole
  attr_of (some k) = if leb (k + 1) argc then name_from (argument stack argc k) else some whole

  abbrev pub with_name : Option String → (String → Option Found) → Option Found
  with_name none f = none
  with_name (some n) f = f n

  unfoldable pub pass_through : Passthrough → Option Found
  pass_through p =
      if leb (p.obj_idx + 1) argc
      then with_argument (argument stack argc p.obj_idx) (λ target.
        with_name (attr_of p.name_idx) (λ name. some (found (if_mutable p.kind target name) none)))
      else some (found [] none)

  -- The first argument, if there is one, is accessed as a whole.
  abbrev pub first_argument : Access → Option Found
  first_argument a =
      if leb 1 argc
      then with_argument (argument stack argc 0)
          (λ target. some (found (if_mutable a target whole) none))
      else some (found [] none)

  -- A bound C method by its `__self__`.
  abbrev pub bound_method : Object → Value → Option Found
  bound_method item none = some go_on
  bound_method item (some self) =
      if rt.is_immutable self
      then (if in_list (rt.name_of item) immutable_self_arg_readers && leb 1 argc
          then first_argument read
          else some go_on)
      else some (found (seen (method_access (rt.name_of item)) (some self) whole) none)

  -- `_constructor_source`: the first mutable argument.
  abbrev pub first_source : Value → Value → Value
  first_source none v = if is_mutable rt v then v else none
  first_source (some o) v = some o

  -- `for _ci in range(argc)` from argument `j` on, with `left` arguments left
  unfoldable pub read_arguments : (left j : ℕ) → List Report → Value → Option Found
  read_arguments zero j rs source = some (found rs source)
  read_arguments (suc left) j rs source =
      with_argument (argument stack argc j)
        (λ v. read_arguments left (suc j) (rs ++ if_mutable read v whole) (first_source source v))

  -- The strategies after the passthrough table, by what the item is.
  abbrev pub by_type : Object → Callable → Option Found
  by_type item builtin_method = bound_method item (rt.self_of item)
  by_type item method_wrapper = bound_method item (rt.self_of item)
  by_type item constructor = read_arguments argc 0 [] none
  by_type item wrapper_descriptor =
      if rt.has_mutable_objclass item
      then first_argument (method_access (rt.name_of item))
      else some (found [] none)
  by_type item other_callable = some go_on

  unfoldable pub look_at : Value → Option Found
  look_at none = some go_on
  look_at (some item) = elim (lookup (rt.function_name item) passthrough_builtins) [
    | some p ↦ pass_through p
    | none ↦ by_type item (rt.callable item)
  ]

  abbrev pub unless_stopped : Option Found → Option Found → Option Found
  unless_stopped none next = none
  unless_stopped (some f) next = if f.stops then some f else next

  -- `for i in range(scan_depth)`
  unfoldable pub scan : List Value → Option Found
  scan [] = some go_on
  scan (v ∷ vs) = unless_stopped (look_at v) (scan vs)

abbrev pub fix_top : Value → List Value → List Value
fix_top none vs = vs
fix_top (some o) vs = replace_at 0 (some o) vs

-- What follows the scan: the effect on the stack, the constructor's source, and the reports.
abbrev pub after_scan : Option (ℕ × ℕ) → Shadow → Option Found → Option Shadow
after_scan effect s none = none
after_scan effect s (some f) = some (record (stack_effect effect s) {
  stack = fix_top f.source (stack_effect effect s).stack;
  reports = s.reports ++ f.seen_by_call;
})

-- CALL and its kin with `argc` arguments; none is an IndexError out of the handler. The argument that
-- lies deepest is read first, so the error comes before any report of the call.
unfoldable pub call : Runtime → ℕ → Option (ℕ × ℕ) → Shadow → Option Shadow
call rt argc effect s =
    after_scan effect s (scan rt s.stack argc (take (min (argc + 3) (length s.stack)) s.stack))
