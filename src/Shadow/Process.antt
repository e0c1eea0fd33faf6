-- ===== src/Shadow/Process.antt =====
-- frontrun/dpor.py, `_process_opcode`: the instruction chooses the handler.
use frontrun.Prelude.{Bool, true, false, Option, none, some, String}
use frontrun.Shadow.{Value, Shadow, Runtime, Frame, push, pop, peek}
use frontrun.Shadow.Ops.{
  load_pair, load_global, load_name, load_deref, copy_value, swapped, rot_two, rot_three, rot_four,
  load_attr, store_attr, load_method, delete_attr, read_subscript, store_subscript,
  delete_subscript, store_global, store_deref, build_slice, get_iter, for_iter, stack_effect,
}
use frontrun.Shadow.Calls.{call}
use frontrun.Shadow.Instruction.{Op}

abbrev pub local_or_none : Frame → Option String → Value
local_or_none fr none = none
local_or_none fr (some name) = fr.locals name

-- The outer none is an exception of the handler.
module _ (rt : Runtime) (fr : Frame) (has_recorder : Bool) where
  unfoldable pub process_opcode : Op → Shadow → Option Shadow
  process_opcode (Op.load_fast name) s = some (push (fr.locals name) s)
  process_opcode (Op.load_fast_load_fast names) s = some (load_pair fr names s)
  process_opcode (Op.load_global name null_flag) s = some (load_global fr name null_flag s)
  process_opcode (Op.load_name name) s = some (load_name fr name s)
  process_opcode (Op.load_deref name) s = some (load_deref fr name s)
  process_opcode (Op.load_const v) s = some (push v s)
  process_opcode (Op.load_small_int v) s = some (push v s)
  process_opcode (Op.copy n) s = some (push (copy_value n s.stack) s)
  process_opcode (Op.swap n) s = some (record s { stack = swapped n s.stack })
  process_opcode Op.dup_top s = some (push (peek 0 s) s)
  process_opcode Op.dup_top_two s = some (push (peek 0 s) (push (peek 1 s) s))
  process_opcode Op.rot_two s = some (record s { stack = rot_two s.stack })
  process_opcode Op.rot_three s = some (record s { stack = rot_three s.stack })
  process_opcode Op.rot_four s = some (record s { stack = rot_four s.stack })
  process_opcode (Op.load_attr attr null_flag) s =
      some (load_attr rt fr has_recorder attr null_flag s)
  process_opcode (Op.store_attr attr) s = some (store_attr rt fr has_recorder attr s)
  process_opcode (Op.load_method attr) s = some (load_method rt fr has_recorder attr s)
  process_opcode (Op.delete_attr attr) s = some (delete_attr rt fr has_recorder attr s)
  process_opcode Op.binary_subscr s = some (read_subscript rt fr has_recorder s)
  process_opcode Op.store_subscr s = some (store_subscript rt fr has_recorder s)
  process_opcode Op.delete_subscr s = some (delete_subscript rt fr has_recorder s)
  process_opcode (Op.binary_op true) s = some (read_subscript rt fr has_recorder s)
  process_opcode (Op.binary_op false) s = some (push none (pop (pop s)))
  process_opcode Op.inplace_op s = some (push none (pop (pop s)))
  process_opcode (Op.store_global name) s = some (store_global rt fr has_recorder name s)
  process_opcode (Op.store_deref name) s = some (store_deref rt fr has_recorder name s)
  process_opcode Op.store_fast s = some (pop s)
  process_opcode Op.store_fast_store_fast s = some (pop (pop s))
  process_opcode (Op.store_fast_load_fast name) s = some (push (local_or_none fr name) (pop s))
  process_opcode Op.store_fast_maybe_null s = some (pop s)
  process_opcode (Op.load_fast_and_clear name) s = some (push (fr.locals name) s)
  process_opcode Op.return_value s = some (pop s)
  process_opcode Op.pop_top s = some (pop s)
  process_opcode (Op.build_slice arg) s = some (build_slice rt arg s)
  process_opcode Op.get_iter s = some (get_iter rt s)
  process_opcode Op.for_iter s = some (for_iter rt s)
  process_opcode Op.end_for s = some (pop s)
  process_opcode Op.pop_iter s = some (pop s)
  process_opcode (Op.call argc effect) s = call rt argc effect s
  process_opcode (Op.other_op effect) s = some (stack_effect effect s)
