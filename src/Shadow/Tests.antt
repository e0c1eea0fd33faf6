-- ===== src/Shadow/Tests.antt =====
-- A list of the program is read by a subscript, by a method and by a loop.
use frontrun.Prelude.{
  Bool, false, none, some, List, [], ◌∷◌, if◌then◌else◌, ◌==◌, nat_eq, string_eq,
}
use frontrun.Shadow.{
  Object, object, marker, Value, write, Shadow, builtin_method, other_callable, Runtime, Frame,
}
use frontrun.Shadow.Calls.{call}
use frontrun.Shadow.Instruction.{Op}
use frontrun.Shadow.Conflicts.{on_whole}

abbrev items_list : Object
items_list = object 1

abbrev append_method : Object
append_method = object 2

-- Object 2 is the bound method `append` of object 1; object 3 is an integer.
abbrev is_append : Object → Bool
is_append (object n) = n == 2
is_append (marker n) = false

abbrev is_integer : Object → Bool
is_integer (object n) = n == 3
is_integer (marker n) = false

abbrev rt : Runtime
rt = record {
  is_immutable = is_integer;
  dict_of = λ o. none;
  get_attr = λ o name. none;
  callable = λ o. if is_append o then builtin_method else other_callable;
  function_name = λ o. "user.f";
  self_of = λ o. if is_append o then some items_list else none;
  name_of = λ o. if is_append o then some "append" else none;
  has_mutable_objclass = λ o. false;
  text_of = λ v. none;
  repr = λ v. "0";
  repr_index = λ n. if n == 0 then "0" else "1";
  slice_indices = λ o v. [];
  slice_of = λ vs. none;
}

abbrev fr : Frame
fr = record {
  locals = λ name. some items_list;
  globals = λ name. none;
  builtins = λ name. none;
  globals_dict = object 10;
  code = object 11;
  is_cell = λ name. false;
}

abbrev start : List Value → Shadow
start vs = record { stack = vs; markers = []; reports = []; notes = [] }

abbrev before_call : Shadow
before_call = start (some (object 3) ∷ none ∷ some append_method ∷ [])

abbrev append_call : Op
append_call = Op.call 1 (some (2, 0))

abbrev after_call : Shadow
after_call = record {
  stack = some append_method ∷ [];
  markers = [];
  reports = on_whole write items_list ∷ [];
  notes = [];
}

abbrev before_loop : Shadow
before_loop = start (some items_list ∷ [])
