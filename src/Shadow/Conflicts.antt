-- ===== src/Shadow/Conflicts.antt =====
-- frontrun/dpor.py, `_process_opcode`: the reports of accesses to one container.
use frontrun.Prelude.{
  ℕ, ◌+◌, ◌≤◌, ◌≡◌, true, Option, none, some, List, [], ◌∷◌, ◌++◌, string_eq, get_elem?, length,
  lookup,
}
use frontrun.Shadow.{
  Object, marker, Value, Access, read, write, Report, Shadow, builtin_method, Runtime, whole,
}
use frontrun.Shadow.Ops.{for_iter}
use frontrun.Shadow.Calls.{go_on, look_at, call, method_access, passthrough_builtins}
use frontrun.Shadow.Instruction.{Op}

-- The report is among those of the list.
pub data Told (r : Report) : List Report → Type 0 where
  first : {rs : List Report} → Told r (r ∷ rs)
  later : {q : Report} {rs : List Report} → Told r rs → Told r (q ∷ rs)

-- The report of an access to the whole of a container.
abbrev pub on_whole : Access → Object → Report
on_whole a c = record { access = a; target = c; name = whole }

-- The values above the method on the stack are none that the scan stops at.
abbrev pub AreInert : Runtime → List Value → ℕ → List Value → Type 0
AreInert rt stack argc [] = Unit
AreInert rt stack argc (v ∷ vs) = (look_at rt stack argc v ≡ some go_on) × AreInert rt stack argc vs

-- The instruction accesses the container: by a subscript, by the next step of an iteration, or by a
-- method of C code that is bound to it.
pub data Touches (rt : Runtime) (s : Shadow) : Access → Object → Op → Type 0 where
  item_read :
      {c : Object} (key : Value) (rest : List Value)
      → s.stack ≡ key ∷ some c ∷ rest
      → Touches rt s read c Op.binary_subscr
  item_read_op :
      {c : Object} (key : Value) (rest : List Value)
      → s.stack ≡ key ∷ some c ∷ rest
      → Touches rt s read c (Op.binary_op true)
  item_write :
      {c : Object} (key v : Value) (rest : List Value)
      → s.stack ≡ key ∷ some c ∷ v ∷ rest
      → Touches rt s write c Op.store_subscr
  item_delete :
      {c : Object} (key : Value) (rest : List Value)
      → s.stack ≡ key ∷ some c ∷ rest
      → Touches rt s write c Op.delete_subscr
  step :
      {c : Object} (i n : ℕ) (rest : List Value)
      → s.stack ≡ some (marker i) ∷ rest
      → get_elem? s.markers i ≡ some (c, n)
      → Touches rt s read c Op.for_iter
  method :
      {a : Access} {c m : Object} (above rest : List Value) (argc : ℕ) (effect : Option (ℕ × ℕ))
      → s.stack ≡ above ++ (some m ∷ rest)
      → length above ≤ argc + 2
      → AreInert rt s.stack argc above
      → lookup (rt.function_name m) passthrough_builtins ≡ none
      → rt.callable m ≡ builtin_method
      → rt.self_of m ≡ some c
      → method_access (rt.name_of m) ≡ a
      → Touches rt s a c (Op.call argc effect)

-- More reports, with this one among them.
abbrev Tells : List Report → List Report → Report → Type 0
Tells old new r = (rs : List Report) × (new ≡ old ++ rs) × Told r rs
