-- ===== src/Fixer/Engine/Silent.antt =====
-- An operation of internal/fixer/fixer.go that reports no edit has made none: `Apply` may then copy
-- the document from the source.
use mathlib.Core.Path.{subst}
use aegis_ebpf.Base.{
  ℕ, ◌+◌, ◌≡◌, ◌≢◌, refl, sym, ◌∙◌, ap, true, false, List, [], ◌∷◌, ◌++◌, Option, none, some, Bytes,
  ok, Result, Bool-cases, inl, inr, any, >>=-ok, if◌then◌else◌,
}
use aegis_ebpf.Fixer.Engine.Lists.{Step, with_content_self}
use aegis_ebpf.Fixer.Engine.Repeats.{edited}
use aegis_ebpf.Fixer.Engine.Steps.{
  key_pointer, walk_mapping, walk_list, walk-edit, walk_key, through_key_present, through_key_null,
  through_key-none, create-put, create_skip, walk_empty,
}
use aegis_ebpf.Fixer.Engine.{
  Edit, put, edit, edit_value, selects, item_pointer, walk_items, through_list, create, through_key,
  walk, run_plan, holds,
}
use aegis_ebpf.Fixer.Operation.{
  Op, op_set, op_add, op_other, Compiled, PatchOp, PatchValue, ApplyError, has_selector,
}
use aegis_ebpf.Fixer.Path.{Selector, FieldPath}
use aegis_ebpf.Fixer.Yaml.Fields.{store-lookup}
use aegis_ebpf.Fixer.Yaml.{
  Node, Nodes, nil, cons, content, with_content, is_mapping, is_sequence, is_scalar, any_node,
  lookup, store, Yaml, is_null,
}

pub append-nil_both {ℓ} : {A : Type ℓ} (xs ys : List A) → xs ++ ys ≡ [] → (xs ≡ []) × (ys ≡ [])
append-nil_both [] ys h = (refl, h)
append-nil_both (x ∷ xs) ys h = absurd (cc)

pub reports :
    {A B : Type 0} {m n : B} {x z : A}
    → ◌≡◌ {A = Result ApplyError (B × A)} (ok (m, x)) (ok (n, z))
    → z ≡ x
reports h = cc

module _ (y : Yaml) where
  open y use {Any}

  -- A step that reports nothing leaves the node.
  abbrev pub IsSilent : Step y → Type 0
  IsSilent f =
      (n : Node) (ptr : Bytes) (n' : Node) (ops : List (PatchOp Any))
      → f n ptr ≡ ok (n', ops)
      → ops ≡ []
      → n' ≡ n

  put_reports :
      (n : Node) (key : Bytes) (old : Option Node) (new : Node) (value : PatchValue Any)
      (ptr : Bytes) {n' : Node} {ops : List (PatchOp Any)}
      → ◌≡◌ {A = Edit Any} (ok (put y n key old new value ptr)) (ok (n', ops))
      → ops ≢ []
  unfolding put
  put_reports n key none new value ptr h e = absurd (cc)
  put_reports n key (some old) new value ptr h e = absurd (cc)

  pub store-same_at :
      (n : Node) (key : Bytes) (v v' : Node)
      → lookup key (content n) ≡ some v
      → v' ≡ v
      → with_content n (store key v' (content n)) ≡ n
  store-same_at n key v v' e same =
      ap (λ u. with_content n (store key u (content n))) same
      ∙ ap (with_content n) (store-lookup key (content n) e)
      ∙ with_content_self y n

  module _ (n : Node) (key ptr : Bytes) {n' : Node} {ops : List (PatchOp Any)} where
    edit_value-IsSilent :
        (c : Compiled Any) (op : Op) (v : Node)
        → edit_value y c op n key v ptr ≡ ok (n', ops)
        → ops ≡ []
        → n' ≡ n
    unfolding edit_value
    edit_value-IsSilent c op_set v h e = elim (Bool-cases (is_scalar v)) [
      | inl s ↦ elim (Bool-cases (holds y c v)) [
        | inl k ↦ edited (rw (s, k) at h)
        | inr k ↦ absurd (put_reports n key (some v) _ _ ptr (rw (s, k) at h) e)
      ]
      | inr s ↦ absurd (let h' = rw s at h in cc)
    ]
    edit_value-IsSilent c op_add v h e = elim (Bool-cases (is_sequence v)) [
      | inl s ↦ elim (Bool-cases (any_node (holds y c) (content v))) [
        | inl k ↦ edited (rw (s, k) at h)
        | inr k ↦ absurd (let h' = rw (s, k) at h in cc)
      ]
      | inr s ↦ absurd (let h' = rw s at h in cc)
    ]
    edit_value-IsSilent c (op_other s) v h e = edited h

    edit-IsSilent :
        (c : Compiled Any) (old : Option Node)
        → edit y c n key old ptr ≡ ok (n', ops)
        → ops ≡ []
        → n' ≡ n
    unfolding edit
    edit-IsSilent c none h e = absurd (put_reports n key none _ _ ptr h e)
    edit-IsSilent c (some v) h e = elim (Bool-cases (is_null y v)) [
      | inl null ↦ absurd (put_reports n key (some v) _ _ ptr (rw null at h) e)
      | inr present ↦ edit_value-IsSilent c c.op v (rw present at h) e
    ]

    create-IsSilent :
        (c : Compiled Any) (rest : FieldPath) (old : Option Node)
        → create y c rest n key old ptr ≡ ok (n', ops)
        → ops ≡ []
        → n' ≡ n
    create-IsSilent c rest old h e = elim (Bool-cases (any has_selector rest)) [
      | inl skip ↦ edited (sym (create_skip y c rest n key ptr old skip) ∙ h)
      | inr build ↦
          absurd
            (put_reports n key old _ _ ptr (sym (create-put y c rest n key ptr old build) ∙ h) e)
    ]

    through_key-IsSilent :
        (c : Compiled Any) (rest : FieldPath) (sub : Step y) (old : Option Node)
        → IsSilent sub
        → lookup key (content n) ≡ old
        → through_key y c rest sub n key old ptr ≡ ok (n', ops)
        → ops ≡ []
        → n' ≡ n
    through_key-IsSilent c rest sub none silent l h e =
        create-IsSilent c rest none (sym (through_key-none y c rest sub n key ptr) ∙ h) e
    through_key-IsSilent c rest sub (some v) silent l h e = elim (Bool-cases (is_null y v)) [
      | inl null ↦
          create-IsSilent c rest (some v) (sym (through_key_null y c rest sub n key ptr v null) ∙ h)
            e
      | inr present ↦
          let ((v', o), walked, done) =
            >>=-ok (sub v ptr) _ (sym (through_key_present y c rest sub n key ptr v present) ∙ h) in
          edited done
          ∙ store-same_at n key v v' l (silent v ptr v' o walked (sym (reports done) ∙ e))
    ]

  item-IsSilent :
      (sel : Selector) (sub : Step y) (ptr : Bytes) (i : ℕ) (item item' : Node)
      (ops : List (PatchOp Any))
      → IsSilent sub
      → (if selects sel i item then sub item (item_pointer ptr i) else ok (item, []))
        ≡ ok (item', ops)
      → ops ≡ []
      → item' ≡ item
  item-IsSilent sel sub ptr i item item' ops silent h e = elim (Bool-cases (selects sel i item)) [
    | inl s ↦ silent item (item_pointer ptr i) item' ops (rw s at h) e
    | inr s ↦ edited (rw s at h)
  ]

  walk_items-IsSilent :
      (sel : Selector) (sub : Step y) (ptr : Bytes) (i : ℕ) (items items' : Nodes)
      (ops : List (PatchOp Any))
      → IsSilent sub
      → walk_items y sel sub ptr i items ≡ ok (items', ops)
      → ops ≡ []
      → items' ≡ items
  unfolding walk_items
  walk_items-IsSilent sel sub ptr i nil items' ops silent h e = edited h
  walk_items-IsSilent sel sub ptr i (cons item items) items' ops silent h e =
      let ((item', o), walked, h') =
        >>=-ok (if selects sel i item then sub item (item_pointer ptr i) else ok (item, [])) _ h in
      let ((rest, more), walked', done) = >>=-ok (walk_items y sel sub ptr (i + 1) items) _ h' in
      let (here, later) = append-nil_both o more (sym (reports done) ∙ e) in
      let same = item-IsSilent sel sub ptr i item item' o silent walked here in
      let sames = walk_items-IsSilent sel sub ptr (i + 1) items rest more silent walked' later in
      edited done ∙ ap (λ m. cons m rest) same ∙ ap (cons item) sames

  through_list-IsSilent :
      (sel : Selector) (sub : Step y) (n : Node) (key : Bytes) (old : Option Node) (ptr : Bytes)
      {n' : Node} {ops : List (PatchOp Any)}
      → IsSilent sub
      → lookup key (content n) ≡ old
      → through_list y sel sub n key old ptr ≡ ok (n', ops)
      → ops ≡ []
      → n' ≡ n
  unfolding through_list
  through_list-IsSilent sel sub n key none ptr silent l h e = edited h
  through_list-IsSilent sel sub n key (some v) ptr silent l h e = elim (Bool-cases (is_null y v)) [
    | inl null ↦ edited (rw null at h)
    | inr present ↦ elim (Bool-cases (is_sequence v)) [
      | inl s ↦
          let ((items, o), walked, done) =
            >>=-ok (walk_items y sel sub ptr 0 (content v)) _ (rw (present, s) at h) in
          let same =
            walk_items-IsSilent sel sub ptr 0 (content v) items o silent walked
              (sym (reports done) ∙ e) in
          edited done
          ∙ store-same_at n key v (with_content v items) l
              (ap (with_content v) same ∙ with_content_self y v)
      | inr s ↦ absurd (let h' = rw (present, s) at h in cc)
    ]
  ]

  walk-IsSilent : (c : Compiled Any) (path : FieldPath) → IsSilent (walk y c path)
  walk-IsSilent c [] n ptr n' ops h e = absurd (walk_empty y c n ptr h)
  walk-IsSilent c (seg ∷ rest) n ptr n' ops h e =
      let m = walk_mapping y c n ptr (seg ∷ rest) h in
      elim (Bool-cases (has_selector seg)) [
        | inl s ↦
            through_list-IsSilent seg.sel (walk y c rest) n seg.key (lookup seg.key (content n))
              (key_pointer ptr seg) (walk-IsSilent c rest) refl
              (sym (walk_list y c n ptr seg m rest s) ∙ h) e
        | inr s ↦ key rest (walk-IsSilent c rest) m s h
      ]
    where
      key :
          (rest : FieldPath)
          → IsSilent (walk y c rest)
          → is_mapping n ≡ true
          → has_selector seg ≡ false
          → walk y c (seg ∷ rest) n ptr ≡ ok (n', ops)
          → n' ≡ n
      key [] silent m s h =
          edit-IsSilent n seg.key (key_pointer ptr seg) c (lookup seg.key (content n))
            (sym (walk-edit y c n ptr seg m s) ∙ h) e
      key (next ∷ rest) silent m s h =
          through_key-IsSilent n seg.key (key_pointer ptr seg) c (next ∷ rest)
            (walk y c (next ∷ rest)) (lookup seg.key (content n)) silent refl
            (sym (walk_key y c n ptr seg m next rest s) ∙ h) e

  -- A plan that reports no edit on a pod spec leaves it as it is: what is not in the patch is not
  -- changed.
  pub run_plan-silent :
      (plan : List (Compiled Any)) (n : Node) (ptr : Bytes) (n' : Node)
      → run_plan y plan n ptr ≡ ok (n', [])
      → n' ≡ n
  unfolding run_plan
  run_plan-silent [] n ptr n' h = edited h
  run_plan-silent (c ∷ plan) n ptr n' h =
      let ((m, o), walked, h') = >>=-ok (walk y c c.path n ptr) _ h in
      let ((r, more), walked', done) = >>=-ok (run_plan y plan m ptr) _ h' in
      let (here, later) = append-nil_both o more (sym (reports done)) in
      edited done
      ∙ run_plan-silent plan m ptr r (subst (λ x. run_plan y plan m ptr ≡ ok (r, x)) later walked')
      ∙ walk-IsSilent c c.path n ptr m o walked here
