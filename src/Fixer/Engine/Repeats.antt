-- ===== src/Fixer/Engine/Repeats.antt =====
-- `edit` of internal/fixer/fixer.go, applied to its own result.
use mathlib.Core.Path.{subst}
use aegis_ebpf.Base.{
  ◌≡◌, ◌≢◌, ◌⊎◌, refl, sym, ◌∙◌, ap, true, false, List, [], Option, none, some, Bytes, Result, ok,
  Bool-cases, inl, inr,
}
use aegis_ebpf.Fixer.Operation.{
  Op, op_set, op_add, op_other, Compiled, PatchOp, PatchValue, scalar, ApplyError,
}
use aegis_ebpf.Fixer.Yaml.Fields.{is_even, lookup-store, lookup-snoc}
use aegis_ebpf.Fixer.Yaml.{
  Node, node, Nodes, content, with_content, is_sequence, is_scalar, any_node, lookup, store, snoc,
  Yaml, is_null,
}
use aegis_ebpf.Fixer.Engine.Settled.{
  Storable, Settled, scalar-Settled, leaf-Settled, leaf_new-Settled, snoc-Settled, edit-Settled,
}
use aegis_ebpf.Fixer.Engine.{
  overwrite, block_if_empty, put, holds, leaf_of, leaf_value_of, edit_value, edit,
}

abbrev pub placed : Option Node → Node → Node
placed none new = new
placed (some old) new = overwrite old new

-- Results in order, read back from an equation between them.
pub edited :
    {A B : Type 0} {m n : B} {x z : A}
    → ◌≡◌ {A = Result ApplyError (B × A)} (ok (m, x)) (ok (n, z))
    → n ≡ m
edited h = cc

pub content-with : (n : Node) (x : Nodes) → content (with_content n x) ≡ x
content-with (node k a c) x = refl

module _ (y : Yaml) where
  open y use {Any}

  -- `put` leaves the new node at its key.
  pub lookup-put :
      (n : Node) (key : Bytes) (old : Option Node) (new : Node) (value : PatchValue Any)
      (ptr : Bytes)
      → is_even (content n) ≡ true
      → lookup key (content n) ≡ old
      → lookup key (content (put y n key old new value ptr).0) ≡ some (placed old new)
  unfolding put
  lookup-put n key none new value ptr even e =
      ap (lookup key) (content-with (block_if_empty n) _) ∙ lookup-snoc key new (content n) even e
  lookup-put n key (some old) new value ptr even e =
      ap (lookup key) (content-with n _) ∙ lookup-store key (overwrite old new) (content n) e

  -- What `edit` does to a value that is there: nothing, or one write.
  module _ (c : Compiled Any) where
    pub set_inv :
        (n : Node) (key ptr : Bytes) (v : Node) {n' : Node} {ops : List (PatchOp Any)}
        → edit_value y c op_set n key v ptr ≡ ok (n', ops)
        → ((edit_value y c op_set n key v ptr ≡ ok (n, [])) × (n' ≡ n))
          ⊎ (n' ≡ (put y n key (some v) (y.encode_any c.want) (scalar c.want) ptr).0)
    unfolding edit_value
    set_inv n key ptr v h = elim (Bool-cases (is_scalar v)) [
      | inl s ↦ elim (Bool-cases (holds y c v)) [
        | inl same ↦ inl (rw (s, same), edited (rw (s, same) at h))
        | inr new ↦ inr (edited (rw (s, new) at h))
      ]
      | inr s ↦ absurd (let h' = rw s at h in cc)
    ]

    pub add_inv :
        (n : Node) (key ptr : Bytes) (v : Node) {n' : Node} {ops : List (PatchOp Any)}
        → edit_value y c op_add n key v ptr ≡ ok (n', ops)
        → ((edit_value y c op_add n key v ptr ≡ ok (n, [])) × (n' ≡ n))
          ⊎ ((is_sequence v ≡ true)
              × (n'
                  ≡ with_content n (
                      store key
                        (with_content v (snoc (content v) (y.encode_any c.want)))
                        (content n))))
    unfolding edit_value
    add_inv n key ptr v h = elim (Bool-cases (is_sequence v)) [
      | inl s ↦ elim (Bool-cases (any_node (holds y c) (content v))) [
        | inl same ↦ inl (rw (s, same), edited (rw (s, same) at h))
        | inr new ↦ inr (s, edited (rw (s, new) at h))
      ]
      | inr s ↦ absurd (let h' = rw s at h in cc)
    ]

    pub other_inv :
        (n : Node) (key ptr : Bytes) (v : Node) (s : Bytes) {n' : Node} {ops : List (PatchOp Any)}
        → edit_value y c (op_other s) n key v ptr ≡ ok (n', ops)
        → n' ≡ n
    unfolding edit_value
    other_inv n key ptr v s h = edited h

  module _ (c : Compiled Any) (w : Storable y c.want) where
    placed-Settled : (old : Option Node) → Settled y c w c.op (placed old (leaf_of y c c.op))
    placed-Settled none = leaf_new-Settled y c w c.op
    placed-Settled (some old) = leaf-Settled y c w c.op old

    abbrev pub Repeats : Node → Bytes → Bytes → Type 0
    Repeats n key ptr = edit y c n key (lookup key (content n)) ptr ≡ ok (n, [])

    pub put_leaf-Repeats :
        (n : Node) (key ptr : Bytes) (old : Option Node)
        → is_even (content n) ≡ true
        → lookup key (content n) ≡ old
        → Repeats (put y n key old (leaf_of y c c.op) (leaf_value_of y c c.op) ptr).0 key ptr
    put_leaf-Repeats n key ptr old even e =
        edit-Settled y c w _ key ptr (lookup-put n key old _ _ ptr even e) (placed-Settled old)

    module _ (n : Node) (key ptr : Bytes) (v : Node) (even : is_even (content n) ≡ true)
        (e : lookup key (content n) ≡ some v) (present : is_null y v ≡ false) where
      same-Repeats : edit_value y c c.op n key v ptr ≡ ok (n, []) → Repeats n key ptr
      unfolding edit
      same-Repeats h = rw (e, present) h

      stored-Repeats :
          (u : Node)
          → Settled y c w c.op u
          → Repeats (with_content n (store key u (content n))) key ptr
      stored-Repeats u s =
          edit-Settled y c w _ key ptr
            (ap (lookup key) (content-with n _) ∙ lookup-store key u (content n) e) s

      edit_value-Repeats :
          (op : Op) {n' : Node} {ops : List (PatchOp Any)}
          → c.op ≡ op
          → edit_value y c op n key v ptr ≡ ok (n', ops)
          → Repeats n' key ptr
      edit_value-Repeats op_set o h = elim (set_inv c n key ptr v h) [
        | inl (same, moved) ↦
            rw moved
              (same-Repeats (subst (λ x. edit_value y c x n key v ptr ≡ ok (n, [])) (sym o) same))
        | inr moved ↦ rw moved (
            edit-Settled y c w _ key ptr (lookup-put n key (some v) _ _ ptr even e)
              (scalar-Settled y c w c.op v (subst (λ x. x ≢ op_add) (sym o) (cc))))
      ]
      edit_value-Repeats op_add o h = elim (add_inv c n key ptr v h) [
        | inl (same, moved) ↦
            rw moved
              (same-Repeats (subst (λ x. edit_value y c x n key v ptr ≡ ok (n, [])) (sym o) same))
        | inr (s, moved) ↦ rw moved (
            stored-Repeats _ (
              subst (λ x. Settled y c w x (with_content v (snoc (content v) (y.encode_any c.want))))
                (sym o) (snoc-Settled y c w v s)))
      ]
      edit_value-Repeats (op_other s) o h = rw (other_inv c n key ptr v s h) (
          same-Repeats (
            subst (λ x. edit_value y c x n key v ptr ≡ ok (n, [])) (sym o)
              (unfold edit_value in refl)))

    -- `edit`, and again on its result.
    pub edit-Repeats :
        (n : Node) (key ptr : Bytes) (old : Option Node) {n' : Node} {ops : List (PatchOp Any)}
        → is_even (content n) ≡ true
        → lookup key (content n) ≡ old
        → edit y c n key old ptr ≡ ok (n', ops)
        → Repeats n' key ptr
    unfolding edit
    edit-Repeats n key ptr none even e h = rw (edited h) (put_leaf-Repeats n key ptr none even e)
    edit-Repeats n key ptr (some v) even e h = elim (Bool-cases (is_null y v)) [
      | inl null ↦ rw (edited (rw null at h)) (put_leaf-Repeats n key ptr (some v) even e)
      | inr present ↦ edit_value-Repeats n key ptr v even e present c.op refl (rw present at h)
    ]
