-- ===== src/Shadow/Ops.antt =====
-- frontrun/dpor.py, `_process_opcode`: the handlers of all instructions but the calls.
use frontrun.Prelude.{
  ℕ, zero, suc, ◌+◌, ◌-◌, Bool, true, false, ◌&&◌, not, Option, none, some, List, [], ◌∷◌, ◌++◌,
  String, if◌then◌else◌, get_elem?, length, leb, nat_eq,
}
use frontrun.Shadow.{
  Object, marker, Value, read, write, Report, Shadow, Callable, builtin_method, Runtime, Frame,
  push, top_of, tail_of, popped, pop, pop_times, push_times, report, report_if, note, is_mutable,
  whole,
}

-- `_subscript_key_name(key)`
unfoldable pub subscript_key_name : Runtime → Value → String
subscript_key_name rt key = elim (rt.text_of key) [ some s ↦ s | none ↦ rt.repr key ]

-- `_expand_slice_reads(…)`: one read for each index.
unfoldable pub slice_reads : Runtime → Object → List ℕ → List Report
slice_reads rt c [] = []
slice_reads rt c (i ∷ is) =
    record { access = read; target = c; name = rt.repr_index i } ∷ slice_reads rt c is

abbrev pub expand_slice_reads : Runtime → Value → Value → List Report
expand_slice_reads rt none key = []
expand_slice_reads rt (some c) key = slice_reads rt c (rt.slice_indices c key)

-- LOAD_FAST_LOAD_FAST and its kin; `none` is an argval that is no pair.
abbrev pub load_pair : Frame → Option (String × String) → Shadow → Shadow
load_pair fr none s = push none (push none s)
load_pair fr (some (a, b)) s = push (fr.locals b) (push (fr.locals a) s)

-- `x if x is not None else y`
abbrev pub or_else : Value → Value → Value
or_else none v = v
or_else (some o) v = some o

-- The extra slot that a flag in the argument asks for.
abbrev pub push_null : Bool → Shadow → Shadow
push_null flag s = record s { stack = if flag then none ∷ s.stack else s.stack }

unfoldable pub load_global : Frame → String → Bool → Shadow → Shadow
load_global fr name null_flag s =
    report read (some fr.globals_dict) name
      (push_null null_flag (push (or_else (fr.globals name) (fr.builtins name)) s))

unfoldable pub load_name : Frame → String → Shadow → Shadow
load_name fr name s =
    push (or_else (or_else (fr.locals name) (fr.globals name)) (fr.builtins name)) s

unfoldable pub load_deref : Frame → String → Shadow → Shadow
load_deref fr name s =
    report_if (fr.is_cell name) read (some fr.code) name (push (fr.locals name) s)

-- `stack[-n]`; Python's `stack[-0]` is the entry at the bottom.
abbrev pub from_top : ℕ → List Value → Value
from_top zero vs = elim (get_elem? vs (length vs - 1)) [ none ↦ none | some v ↦ v ]
from_top (suc n) vs = elim (get_elem? vs n) [ none ↦ none | some v ↦ v ]

-- COPY n, where n is `instr.arg`, if there is one; compiled code has 1 ≤ n.
abbrev pub copy_value : Option ℕ → List Value → Value
copy_value none vs = none
copy_value (some n) vs = if leb n (length vs) then from_top n vs else none

abbrev pub replace_at : ℕ → Value → List Value → List Value
replace_at i v [] = []
replace_at zero v (x ∷ xs) = v ∷ xs
replace_at (suc i) v (x ∷ xs) = x ∷ replace_at i v xs

-- SWAP n for 1 ≤ n: the top and the n-th entry change places.
abbrev pub swapped : Option ℕ → List Value → List Value
swapped none vs = vs
swapped (some n) vs =
    if leb n (length vs)
    then replace_at (n - 1) (top_of vs) (replace_at 0 (from_top n vs) vs)
    else vs

abbrev pub rot_two : List Value → List Value
rot_two (a ∷ b ∷ vs) = b ∷ a ∷ vs
rot_two vs = vs

abbrev pub rot_three : List Value → List Value
rot_three (a ∷ b ∷ c ∷ vs) = b ∷ c ∷ a ∷ vs
rot_three vs = vs

abbrev pub rot_four : List Value → List Value
rot_four (a ∷ b ∷ c ∷ d ∷ vs) = b ∷ c ∷ d ∷ a ∷ vs
rot_four vs = vs

abbrev pub dict_value : Runtime → Value → Value
dict_value rt none = none
dict_value rt (some o) = rt.dict_of o

-- `type(val) is _BUILTIN_METHOD_TYPE`
abbrev pub is_builtin_method : Callable → Bool
is_builtin_method builtin_method = true
is_builtin_method _ = false

abbrev pub is_container : Runtime → Value → Bool
is_container rt none = false
is_container rt (some o) = not (is_builtin_method (rt.callable o)) && not (rt.is_immutable o)

abbrev pub attr_value : Runtime → Value → String → Value
attr_value rt none attr = none
attr_value rt (some o) attr = elim (rt.get_attr o attr) [ none ↦ none | some v ↦ v ]

-- Whether an instruction has a trace recorder.
module _ (rt : Runtime) (fr : Frame) (has_recorder : Bool) where
  unfoldable pub load_attr : String → Bool → Shadow → Shadow
  load_attr attr null_flag s =
      let obj = popped s in
      let val = attr_value rt obj attr in
      push_null null_flag (
        report_if (is_container rt val) read val whole (
          push val (
            note has_recorder read obj attr
              (report read (dict_value rt obj) attr (report read obj attr (pop s))))))

  unfoldable pub store_attr : String → Shadow → Shadow
  store_attr attr s =
      let obj = popped s in
      note has_recorder write obj attr
        (report write (dict_value rt obj) attr (report write obj attr (pop (pop s))))

  unfoldable pub load_method : String → Shadow → Shadow
  load_method attr s =
      let obj = popped s in
      push none (
        push (attr_value rt obj attr)
          (note has_recorder read obj attr (report read obj attr (pop s))))

  unfoldable pub delete_attr : String → Shadow → Shadow
  delete_attr attr s =
      let obj = popped s in note has_recorder write obj attr (report write obj attr (pop s))

  abbrev pub add_reports : List Report → Shadow → Shadow
  add_reports rs s = record s { reports = s.reports ++ rs }

  -- BINARY_SUBSCR, and BINARY_OP where it is a subscript.
  unfoldable pub read_subscript : Shadow → Shadow
  read_subscript s =
      let key = popped s in
      let container = popped (pop s) in
      let name = subscript_key_name rt key in
      push none (
        note has_recorder read container name (
          add_reports (if is_mutable rt container then expand_slice_reads rt container key else [])
            (report_if (is_mutable rt container) read container whole
              (report read container name (pop (pop s))))))

  -- STORE_SUBSCR and DELETE_SUBSCR on what is left of the stack.
  abbrev pub write_subscript : Value → Value → Shadow → Shadow
  write_subscript key container s =
      let name = subscript_key_name rt key in
      note has_recorder write container name
        (report_if (is_mutable rt container) write container whole (report write container name s))

  unfoldable pub store_subscript : Shadow → Shadow
  store_subscript s = write_subscript (popped s) (popped (pop s)) (pop (pop (pop s)))

  unfoldable pub delete_subscript : Shadow → Shadow
  delete_subscript s = write_subscript (popped s) (popped (pop s)) (pop (pop s))

  unfoldable pub store_global : String → Shadow → Shadow
  store_global name s = report write (some fr.globals_dict) name (pop s)

  unfoldable pub store_deref : String → Shadow → Shadow
  store_deref name s = report_if (fr.is_cell name) write (some fr.code) name (pop s)

-- The top n values, the deepest first; None stands for what is missing.
abbrev pub collect : ℕ → List Value → List Value → List Value
collect zero vs items = items
collect (suc n) vs items = collect n (tail_of vs) (top_of vs ∷ items)

-- `instr.arg or 2`
abbrev pub slice_arity : Option ℕ → ℕ
slice_arity none = 2
slice_arity (some zero) = 2
slice_arity (some (suc n)) = suc n

-- An arity of one has no third item: IndexError, which is not caught, does not arise from compiled
-- code, whose arity is 2 or 3.
unfoldable pub build_slice : Runtime → Option ℕ → Shadow → Shadow
build_slice rt arg s =
    let argc = slice_arity arg in
    record s { stack = rt.slice_of (collect argc s.stack []) ∷ pop_times argc s.stack }

-- A new marker list stands for the iterator.
unfoldable pub get_iter : Runtime → Shadow → Shadow
get_iter rt s = elim (popped s) [
  | none ↦ push none (pop s)
  | some o ↦ if rt.is_immutable o then push none (pop s) else record s {
    stack = some (marker (length s.markers)) ∷ tail_of s.stack;
    markers = s.markers ++ ((o, 0) ∷ []);
  }
]

abbrev pub count_up : ℕ → List (Object × ℕ) → List (Object × ℕ)
count_up i [] = []
count_up zero ((c, n) ∷ ms) = (c, n + 1) ∷ ms
count_up (suc i) (m ∷ ms) = m ∷ count_up i ms

-- The reads of one element, by the counter, and of the whole.
abbrev pub element_reads : Runtime → Object → ℕ → List Report
element_reads rt c n =
    if rt.is_immutable c
    then []
    else record { access = read; target = c; name = rt.repr_index n }
      ∷ record { access = read; target = c; name = whole }
      ∷ []

abbrev pub advance_marker : Runtime → ℕ → Option (Object × ℕ) → Shadow → Shadow
advance_marker rt i none s = s
advance_marker rt i (some (c, n)) s = record s {
  markers = count_up i s.markers;
  reports = s.reports ++ element_reads rt c n;
}

-- Only a marker is read as one; a list of the program with the marker's tag is not considered.
abbrev pub next_of : Runtime → Value → Shadow → Shadow
next_of rt (some (marker i)) s = advance_marker rt i (get_elem? s.markers i) s
next_of rt _ s = s

unfoldable pub for_iter : Runtime → Shadow → Shadow
for_iter rt s = push none (next_of rt (popped s) s)

-- `dis.stack_effect(…)` as the number of pops and of pushes; none is its exception.
abbrev pub stack_effect : Option (ℕ × ℕ) → Shadow → Shadow
stack_effect none s = record s { stack = [] }
stack_effect (some (down, up)) s = record s { stack = push_times up (pop_times down s.stack) }
