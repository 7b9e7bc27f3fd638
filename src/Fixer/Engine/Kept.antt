-- ===== src/Fixer/Engine/Kept.antt =====
-- Every edit of a mapping by internal/fixer/fixer.go is again a mapping.
use aegis_ebpf.Base.{
  ◌≡◌, refl, sym, ◌∙◌, ap, List, Option, none, some, Bytes, ok, Bool-cases, inl, inr, >>=-ok, any,
}
use aegis_ebpf.Fixer.Engine.Repeats.{edited, set_inv, add_inv, other_inv}
use aegis_ebpf.Fixer.Engine.Steps.{
  through_key_present, through_key_null, through_key-none, create-put, create_skip,
}
use aegis_ebpf.Fixer.Engine.{
  Edit, block_if_empty, put, edit, edit_value, walk_items, through_list, through_key, create,
}
use aegis_ebpf.Fixer.Operation.{
  Op, op_set, op_add, op_other, Compiled, PatchOp, PatchValue, has_selector,
}
use aegis_ebpf.Fixer.Path.{Selector, FieldPath}
use aegis_ebpf.Fixer.Yaml.{
  Node, node, Nodes, nil, cons, content, with_content, is_mapping, is_sequence, Yaml, is_null,
}

is_mapping-with_content : (n : Node) (x : Nodes) → is_mapping (with_content n x) ≡ is_mapping n
is_mapping-with_content (node k a c) x = refl

is_mapping-block : (n : Node) → is_mapping (block_if_empty n) ≡ is_mapping n
is_mapping-block (node k a nil) = refl
is_mapping-block (node k a (cons _ _)) = refl

module _ (y : Yaml) (n : Node) (key ptr : Bytes) where
  open y use {Any}

  is_mapping-put :
      (old : Option Node) (new : Node) (value : PatchValue Any)
      → is_mapping (put y n key old new value ptr).0 ≡ is_mapping n
  unfolding put
  is_mapping-put none new value = is_mapping-with_content (block_if_empty n) _ ∙ is_mapping-block n
  is_mapping-put (some old) new value = is_mapping-with_content n _

  module _ (c : Compiled Any) {n' : Node} {ops : List (PatchOp Any)} where
    edit_value-kept :
        (op : Op) (v : Node)
        → edit_value y c op n key v ptr ≡ ok (n', ops)
        → is_mapping n' ≡ is_mapping n
    edit_value-kept op_set v h = elim (set_inv y c n key ptr v h) [
      | inl (_, same) ↦ ap is_mapping same
      | inr moved ↦ ap is_mapping moved ∙ is_mapping-put (some v) _ _
    ]
    edit_value-kept op_add v h = elim (add_inv y c n key ptr v h) [
      | inl (_, same) ↦ ap is_mapping same
      | inr (_, moved) ↦ ap is_mapping moved ∙ is_mapping-with_content n _
    ]
    edit_value-kept (op_other s) v h = ap is_mapping (other_inv y c n key ptr v s h)

    pub edit-kept :
        (old : Option Node) → edit y c n key old ptr ≡ ok (n', ops) → is_mapping n' ≡ is_mapping n
    unfolding edit
    edit-kept none h = ap is_mapping (edited h) ∙ is_mapping-put none _ _
    edit-kept (some v) h = elim (Bool-cases (is_null y v)) [
      | inl null ↦ ap is_mapping (edited (rw null at h)) ∙ is_mapping-put (some v) _ _
      | inr present ↦ edit_value-kept c.op v (rw present at h)
    ]

    create-kept :
        (rest : FieldPath) (old : Option Node)
        → create y c rest n key old ptr ≡ ok (n', ops)
        → is_mapping n' ≡ is_mapping n
    create-kept rest old h = elim (Bool-cases (any has_selector rest)) [
      | inl skip ↦ ap is_mapping (edited (sym (create_skip y c rest n key ptr old skip) ∙ h))
      | inr build ↦
          ap is_mapping (edited (sym (create-put y c rest n key ptr old build) ∙ h))
          ∙ is_mapping-put old _ _
    ]

    pub through_key-kept :
        (rest : FieldPath) (sub : Node → Bytes → Edit Any) (old : Option Node)
        → through_key y c rest sub n key old ptr ≡ ok (n', ops)
        → is_mapping n' ≡ is_mapping n
    through_key-kept rest sub none h =
        create-kept rest none (sym (through_key-none y c rest sub n key ptr) ∙ h)
    through_key-kept rest sub (some v) h = elim (Bool-cases (is_null y v)) [
      | inl null ↦
          create-kept rest (some v) (sym (through_key_null y c rest sub n key ptr v null) ∙ h)
      | inr present ↦
          let h' = sym (through_key_present y c rest sub n key ptr v present) ∙ h in
          let ((v', o), _, done) = >>=-ok (sub v ptr) _ h' in
          ap is_mapping (edited done) ∙ is_mapping-with_content n _
    ]

  pub through_list-kept :
      (sel : Selector) (sub : Node → Bytes → Edit Any) (old : Option Node) {n' : Node}
      {ops : List (PatchOp Any)}
      → through_list y sel sub n key old ptr ≡ ok (n', ops)
      → is_mapping n' ≡ is_mapping n
  unfolding through_list
  through_list-kept sel sub none h = ap is_mapping (edited h)
  through_list-kept sel sub (some v) h = elim (Bool-cases (is_null y v)) [
    | inl null ↦ ap is_mapping (edited (rw null at h))
    | inr present ↦ elim (Bool-cases (is_sequence v)) [
      | inr other ↦ absurd (let h' = rw (present, other) at h in cc)
      | inl list ↦
          let ((items, o), _, done) =
            >>=-ok (walk_items y sel sub ptr 0 (content v)) _ (rw (present, list) at h) in
          ap is_mapping (edited done) ∙ is_mapping-with_content n _
    ]
  ]
