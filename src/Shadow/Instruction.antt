-- ===== src/Shadow/Instruction.antt =====
-- frontrun/dpor.py, `_process_opcode`: the instructions that it tells apart.
use frontrun.Prelude.{ℕ, Bool, Option, String}
use frontrun.Shadow.{Value}

-- The instructions by their handlers. Where several names of the interpreter share a handler, it is
-- named after the first; `binary_op` says whether it is a subscript, and `inplace_op` stands for the
-- names that begin with INPLACE_ or BINARY_.
pub data Op : Type 0 where
  load_fast : String → Op
  load_fast_load_fast : Option (String × String) → Op
  load_global : (name : String) (null_flag : Bool) → Op
  load_name : String → Op
  load_deref : String → Op
  load_const : Value → Op
  load_small_int : Value → Op
  copy swap : Option ℕ → Op
  dup_top dup_top_two rot_two rot_three rot_four : Op
  load_attr : (attr : String) (null_flag : Bool) → Op
  store_attr load_method delete_attr : String → Op
  binary_subscr store_subscr delete_subscr : Op
  binary_op : (is_subscript : Bool) → Op
  inplace_op : Op
  store_global store_deref : String → Op
  store_fast store_fast_store_fast : Op
  store_fast_load_fast : Option String → Op
  store_fast_maybe_null : Op
  load_fast_and_clear : String → Op
  return_value pop_top : Op
  build_slice : Option ℕ → Op
  get_iter for_iter end_for pop_iter : Op
  call : (argc : ℕ) (effect : Option (ℕ × ℕ)) → Op
  other_op : (effect : Option (ℕ × ℕ)) → Op
