-- ===== src/Fixer/Engine.antt =====
-- internal/fixer/fixer.go: `walk` and what it calls. The code edits the tree in place and appends
-- to one patch; here each step returns the edited node with the operations that it appends. On an
-- error `Apply` drops the tree, so what was edited before it is not returned.
pub mod Steps
pub mod Settled
pub mod Repeats
pub mod Kept
pub mod Silent
pub mod Errors
pub mod Lists
pub mod Idempotent
use aegis_ebpf.Base.{
  ℕ, ◌+◌, ◌^◌, Bool, true, false, not, ◌&&◌, ◌||◌, List, [], ◌∷◌, ◌++◌, Option, none, some, Bytes,
  codes, Result, ok, err, ◌>>=◌, if◌then◌else◌, ◌==◌, ◌=b◌, any,
}
use aegis_ebpf.Fixer.Operation.{
  Op, op_set, op_add, op_other, PatchValue, scalar, one, field, patch_add, patch_replace, PatchOp,
  Phrase, a_scalar, a_mapping, a_list, an_alias, ApplyError, conflict, index_panic, Compiled,
  has_selector,
}
use aegis_ebpf.Fixer.Path.{
  Selector, select_none, select_all, select_index, select_match, Segment, FieldPath,
}
use aegis_ebpf.Fixer.Yaml.{
  NodeKind, document_node, mapping_node, sequence_node, scalar_node, alias_node, Style, Attrs, Node,
  node, Nodes, nil, cons, attrs, content, with_content, is_mapping, is_sequence, is_scalar,
  is_empty, any_node, plain, key_node, lookup, store, snoc, Yaml, is_null, absent,
}
use aegis_ebpf.Go.Decimal.{decimal}

-- `pointerEscaper.Replace`.
unfoldable pub escape : Bytes → Bytes
escape [] = []
escape (c ∷ s) =
    if c == b'~'
    then b'~' ∷ b'0' ∷ escape s
    else if c == b'/'
    then b'~' ∷ b'1' ∷ escape s
    else c ∷ escape s

-- The phrase for what a conflicting node is.
abbrev pub phrase : Node → Phrase
phrase (node mapping_node _ _) = a_mapping
phrase (node sequence_node _ _) = a_list
phrase (node alias_node _ _) = an_alias
phrase (node _ _ _) = a_scalar

abbrev pub conflict_at {ℓ} : {A : Type ℓ} → Bytes → Node → Phrase → Result ApplyError A
conflict_at ptr n want = err (conflict ptr (attrs n).line (phrase n) want)

field_holds : Bytes → Option Node → Bool
field_holds value none = false
field_holds value (some f) = is_scalar f && (attrs f).value =b value

-- `Selector.selects`.
unfoldable pub selects : Selector → ℕ → Node → Bool
unfolding field_holds
selects select_none i item = false
selects select_all i item = true
selects (select_index j) i item = i == j
selects (select_match name value) i item =
    is_mapping item && field_holds value (lookup name (content item))

-- The assignment of kind, style, tag, value and content in `put`: anchor, comments and position of
-- the old node stay.
abbrev pub overwrite : Node → Node → Node
overwrite (node _ old _) (node k a c) =
    node k (record old { style = a.style; tag = a.tag; value = a.value }) c

-- A mapping that gets its first entry is written as a block.
abbrev pub block_if_empty : Node → Node
block_if_empty (node k a nil) = node k (record a { style = record a.style { flow = false } }) nil
block_if_empty (node k a (cons n ns)) = node k a (cons n ns)

-- The mappings that `walk` builds around a leaf, for the segments behind a missing key.
abbrev pub nest : FieldPath → Node → Node
nest [] leaf = leaf
nest (seg ∷ rest) leaf =
    node mapping_node (plain (codes "!!map") [])
      (cons (key_node seg.key) (cons (nest rest leaf) nil))

abbrev pub nest_value : {A : Type 0} → FieldPath → PatchValue A → PatchValue A
nest_value [] leaf = leaf
nest_value (seg ∷ rest) leaf = field seg.key (nest_value rest leaf)

-- An edited node, and the operations that describe the edit.
abbrev pub Edit : Type 0 → Type 0
Edit A = Result ApplyError (Node × List (PatchOp A))

-- `ptr+"/"+strconv.Itoa(i)`.
abbrev pub item_pointer : Bytes → ℕ → Bytes
item_pointer ptr i = ptr ++ b'/' ∷ decimal i

module _ (y : Yaml) where
  open y use {Any, any_eq, encode_any, decode_any}

  put_at : Node → Bytes → Option Node → Node → PatchValue Any → Bytes → Node × List (PatchOp Any)
  put_at m key (some old) new value ptr = (
    with_content m (store key (overwrite old new) (content m)),
    record { op = patch_replace; path = ptr; value = value } ∷ [],
  )
  put_at m key none new value ptr = (
    with_content (block_if_empty m) (snoc (snoc (content m) (key_node key)) new),
    record { op = patch_add; path = ptr; value = value } ∷ [],
  )

  -- `put`.
  unfoldable pub put :
      Node → Bytes → Option Node → Node → PatchValue Any → Bytes → Node × List (PatchOp Any)
  unfolding put_at
  put = put_at

  holds_value : Any → Option Any → Bool
  holds_value want none = false
  holds_value want (some have) = any_eq have want

  module _ (c : Compiled Any) where
    -- `holds`.
    unfoldable pub holds : Node → Bool
    unfolding holds_value
    holds n = is_scalar n && holds_value c.want (decode_any n)

    -- `leaf`, as a node and as a value.
    abbrev pub leaf_of : Op → Node
    leaf_of op_add = node sequence_node (plain (codes "!!seq") []) (cons (encode_any c.want) nil)
    leaf_of _ = encode_any c.want

    abbrev pub leaf_value_of : Op → PatchValue Any
    leaf_value_of op_add = one c.want
    leaf_value_of _ = scalar c.want

    -- The switch of `edit` on a value that is there.
    unfoldable pub edit_value : Op → Node → Bytes → Node → Bytes → Edit Any
    edit_value op_set m key v ptr =
        if not (is_scalar v)
        then conflict_at ptr v a_scalar
        else if holds v
        then ok (m, [])
        else ok (put m key (some v) (encode_any c.want) (scalar c.want) ptr)
    edit_value op_add m key v ptr =
        if not (is_sequence v)
        then conflict_at ptr v a_list
        else if any_node holds (content v)
        then ok (m, [])
        else ok (
          with_content m
              (store key (with_content v (snoc (content v) (encode_any c.want))) (content m)),
          record { op = patch_add; path = ptr ++ b'/' ∷ b'-' ∷ []; value = scalar c.want } ∷ [],
        )
    edit_value (op_other _) m key v ptr = ok (m, [])

    unfoldable pub edit_at : Node → Bytes → Option Node → Bytes → Edit Any
    edit_at m key none ptr = ok (put m key none (leaf_of c.op) (leaf_value_of c.op) ptr)
    edit_at m key (some v) ptr =
        if is_null y v
        then ok (put m key (some v) (leaf_of c.op) (leaf_value_of c.op) ptr)
        else edit_value c.op m key v ptr

    -- `edit`.
    unfoldable pub edit : Node → Bytes → Option Node → Bytes → Edit Any
    unfolding edit_at edit_value
    edit = edit_at

  -- The loop over the items of a list; `sub` is the call of `walk` on an item.
  unfoldable pub walk_items :
      Selector
      → (Node → Bytes → Edit Any)
      → Bytes
      → ℕ
      → Nodes
      → Result ApplyError (Nodes × List (PatchOp Any))
  walk_items sel sub ptr i nil = ok (nil, [])
  walk_items sel sub ptr i (cons item items) = do
    (item', ops) ← (if selects sel i item then sub item (item_pointer ptr i) else ok (item, []))
    (items', more) ← walk_items sel sub ptr (i + 1) items
    ok (cons item' items', ops ++ more)

  -- A segment with a selector: a missing list is left alone.
  unfoldable pub through_list :
      Selector → (Node → Bytes → Edit Any) → Node → Bytes → Option Node → Bytes → Edit Any
  through_list sel sub n key none ptr = ok (n, [])
  through_list sel sub n key (some v) ptr =
      if is_null y v
      then ok (n, [])
      else if not (is_sequence v)
      then conflict_at ptr v a_list
      else do
        (items, ops) ← walk_items sel sub ptr 0 (content v)
        ok (with_content n (store key (with_content v items) (content n)), ops)

  -- A plain segment with segments behind it: missing mappings are created, unless one of those
  -- segments selects items of a list.
  unfoldable pub create : Compiled Any → FieldPath → Node → Bytes → Option Node → Bytes → Edit Any
  create c rest n key old ptr =
      if any has_selector rest
      then ok (n, [])
      else ok
          (put n key old (nest rest (leaf_of c c.op)) (nest_value rest (leaf_value_of c c.op)) ptr)

  unfoldable pub through_key :
      Compiled Any
      → FieldPath
      → (Node → Bytes → Edit Any)
      → Node
      → Bytes
      → Option Node
      → Bytes
      → Edit Any
  unfolding create
  through_key c rest sub n key none ptr = create c rest n key none ptr
  through_key c rest sub n key (some v) ptr =
      if is_null y v
      then create c rest n key (some v) ptr
      else do (v', ops) ← sub v ptr; ok (with_content n (store key v' (content n)), ops)

  -- The switch of `walk`; `sub` is its recursive call with the rest of the path.
  unfoldable pub step :
      Compiled Any → Segment → FieldPath → (Node → Bytes → Edit Any) → Node → Bytes → Edit Any
  step c seg [] sub n ptr =
      let v = lookup seg.key (content n) in
      if has_selector seg then through_list seg.sel sub n seg.key v ptr else edit c n seg.key v ptr
  step c seg (next ∷ rest) sub n ptr =
      let v = lookup seg.key (content n) in
      if has_selector seg
      then through_list seg.sel sub n seg.key v ptr
      else through_key c (next ∷ rest) sub n seg.key v ptr

  unfoldable pub walk : Compiled Any → FieldPath → Node → Bytes → Edit Any
  walk c [] n ptr = if not (is_mapping n) then conflict_at ptr n a_mapping else err index_panic
  walk c (seg ∷ rest) n ptr =
      if not (is_mapping n)
      then conflict_at ptr n a_mapping
      else step c seg rest (walk c rest) n (ptr ++ b'/' ∷ escape seg.key)

  -- The inner loop of `Apply`: every operation of the plan on one pod spec.
  unfoldable pub run_plan : List (Compiled Any) → Node → Bytes → Edit Any
  run_plan [] n ptr = ok (n, [])
  run_plan (c ∷ plan) n ptr = do
    (n', ops) ← walk c c.path n ptr
    (n'', more) ← run_plan plan n' ptr
    ok (n'', ops ++ more)
