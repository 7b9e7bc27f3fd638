-- ===== src/Fixer/Operation.antt =====
-- internal/fixer/fixer.go: operations, patches and errors, and the compilation of a plan.
pub mod Ends
use aegis_ebpf.Base.{
  ℕ, Bool, true, false, not, List, [], ◌∷◌, Option, none, some, Bytes, Result, ok, err, ◌>>=◌,
}
use aegis_ebpf.Fixer.Path.{select_none, Segment, FieldPath, PathError, parse_path}
use aegis_ebpf.Fixer.Yaml.{Value, boolean, integer, text, other, Yaml}

-- `Op` is a string: the two that the engine knows, and any other.
pub data Op : Type 0 where
  op_set op_add : Op
  op_other : Bytes → Op

pub record Operation : Type 0 where
  pub op : Op
  pub path : Bytes
  pub value : Value

-- The JSON values that the engine reports: a scalar, a list of one, or a mapping of one key.
pub data PatchValue (Any : Type 0) : Type 0 where
  scalar : Any → PatchValue Any
  one : Any → PatchValue Any
  field : Bytes → PatchValue Any → PatchValue Any

pub data PatchKind : Type 0 where
  patch_add patch_replace : PatchKind

pub record PatchOp (Any : Type 0) : Type 0 where
  pub op : PatchKind
  pub path : Bytes
  pub value : PatchValue Any

-- The phrases of a conflict.
pub data Phrase : Type 0 where
  a_scalar a_mapping a_list an_alias : Phrase

-- The errors of `Apply`. `index_panic` is Go's panic on `path[0]` of an empty path.
pub data ApplyError : Type 0 where
  unknown_operation : Bytes → ApplyError
  invalid_path : PathError → ApplyError
  no_field_name : Bytes → ApplyError
  bad_value : Bytes → ApplyError
  encode_failed : ApplyError
  decode_failed : ApplyError
  syntax : Bytes → ApplyError
  no_workload : ApplyError
  conflict : Bytes → ℕ → Phrase → Phrase → ApplyError
  index_panic : ApplyError

-- `compiled`.
pub record Compiled (Any : Type 0) : Type 0 where
  pub op : Op
  pub path : FieldPath
  pub want : Any

abbrev pub is_known : Op → Bool
is_known op_set = true
is_known op_add = true
is_known (op_other _) = false

abbrev pub has_selector : Segment → Bool
has_selector seg = elim seg.sel [ select_none ↦ false | _ ↦ true ]

-- `path[len(path)-1].Sel.Kind != SelectNone`.
abbrev pub ends_in_selector : FieldPath → Bool
ends_in_selector [] = false
ends_in_selector (seg ∷ []) = has_selector seg
ends_in_selector (_ ∷ seg ∷ path) = ends_in_selector (seg ∷ path)

abbrev pub is_supported : Value → Bool
is_supported (boolean _) = true
is_supported (integer _) = true
is_supported (text _) = true
is_supported other = false

abbrev pub op_name : Op → Bytes
op_name (op_other s) = s
op_name _ = []

abbrev pub lift_path : Result PathError FieldPath → Result ApplyError FieldPath
lift_path (ok path) = ok path
lift_path (err e) = err (invalid_path e)

abbrev pub require : {A : Type 0} → ApplyError → Option A → Result ApplyError A
require e none = err e
require e (some a) = ok a

abbrev pub check : Bool → ApplyError → Result ApplyError (Unit {0})
check true e = ok tt
check false e = err e

module _ (y : Yaml) where
  open y use {Any, encode_value, decode_any}

  unfoldable pub compile_one : Operation → Result ApplyError (Compiled Any)
  compile_one op = do
    _ ← check (is_known op.op) (unknown_operation (op_name op.op))
    path ← lift_path (parse_path op.path)
    _ ← check (not (ends_in_selector path)) (no_field_name op.path)
    _ ← check (is_supported op.value) (bad_value op.path)
    n ← require encode_failed (encode_value op.value)
    want ← require decode_failed (decode_any n)
    ok (record { op = op.op; path = path; want = want })

  unfoldable pub compile : List Operation → Result ApplyError (List (Compiled Any))
  compile [] = ok []
  compile (op ∷ ops) = do c ← compile_one op; plan ← compile ops; ok (c ∷ plan)
