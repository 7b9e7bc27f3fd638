-- ===== src/Fixer/Engine/Settled.antt =====
-- Values that `edit` of internal/fixer/fixer.go leaves as they are.
use aegis_ebpf.Base.{◌≡◌, ◌≢◌, refl, ◌∙◌, true, false, [], some, arith, Bytes, ok}
use aegis_ebpf.Fixer.Operation.{Op, op_set, op_add, op_other, Compiled}
use aegis_ebpf.Fixer.Yaml.Fields.{any_node-snoc}
use aegis_ebpf.Fixer.Yaml.{
  Node, node, content, with_content, is_sequence, is_scalar, sequence_node, any_node, lookup, snoc,
  Yaml, is_null,
}
use aegis_ebpf.Fixer.Engine.{overwrite, holds, leaf_of, edit_value, edit}

-- What the engine relies on in the library for the value of an operation: it is written as a
-- scalar that is not null and that is read back as the same value, in whatever comments it stands.
pub record Storable (y : Yaml) (want : Yaml.Any y) : Type 0 where
  pub scalar : is_scalar (y.encode_any want) ≡ true
  pub back : (old : Node) → y.decode_any (overwrite old (y.encode_any want)) ≡ some want
  pub present : (old : Node) → is_null y (overwrite old (y.encode_any want)) ≡ false
  pub self : y.any_eq want want ≡ true

overwrite_self : (n : Node) → overwrite n n ≡ n
overwrite_self (node k a c) = refl

is_scalar-overwrite : (old n : Node) → is_scalar (overwrite old n) ≡ is_scalar n
is_scalar-overwrite (node _ _ _) (node k a c) = ground arith

module _ (y : Yaml) (c : Compiled y.Any) (w : Storable y c.want) where
  open y use {Any, encode_any}

  pub holds-overwrite : (old : Node) → holds y c (overwrite old (encode_any c.want)) ≡ true
  unfolding holds
  holds-overwrite old =
      rw (is_scalar-overwrite old (encode_any c.want), w.scalar, w.back old) (w.self)

  pub holds-encode : holds y c (encode_any c.want) ≡ true
  holds-encode = rw (overwrite_self (encode_any c.want)) at (holds-overwrite (encode_any c.want))

  -- A value that the operation leaves as it is.
  pub record Settled (op : Op) (v : Node) : Type 0 where
    pub present : is_null y v ≡ false
    pub kept : (m : Node) (key ptr : Bytes) → edit_value y c op m key v ptr ≡ ok (m, [])

  scalar-kept :
      (op : Op) (v m : Node) (key ptr : Bytes)
      → op ≢ op_add
      → is_scalar v ≡ true
      → holds y c v ≡ true
      → edit_value y c op m key v ptr ≡ ok (m, [])
  unfolding edit_value
  scalar-kept op_set v m key ptr ne s h = rw (s, h)
  scalar-kept op_add v m key ptr ne s h = absurd (ne refl)
  scalar-kept (op_other _) v m key ptr ne s h = refl

  list-kept :
      (v m : Node) (key ptr : Bytes)
      → is_sequence v ≡ true
      → any_node (holds y c) (content v) ≡ true
      → edit_value y c op_add m key v ptr ≡ ok (m, [])
  unfolding edit_value
  list-kept v m key ptr s h = rw (s, h)

  pub scalar-Settled :
      (op : Op) (old : Node) → op ≢ op_add → Settled op (overwrite old (encode_any c.want))
  scalar-Settled op old ne = record {
    present = w.present old;
    kept = λ m key ptr.
        scalar-kept op _ m key ptr ne (is_scalar-overwrite old (encode_any c.want) ∙ w.scalar)
          (holds-overwrite old);
  }

  pub leaf-Settled : (op : Op) (old : Node) → Settled op (overwrite old (leaf_of y c op))
  leaf-Settled op_set old = scalar-Settled op_set old (cc)
  leaf-Settled (op_other s) old = scalar-Settled (op_other s) old (cc)
  leaf-Settled op_add (node k a old) = record {
    present = unfold is_null in refl;
    kept = λ m key ptr. list-kept _ m key ptr refl (rw holds-encode);
  }

  pub leaf_new-Settled : (op : Op) → Settled op (leaf_of y c op)
  leaf_new-Settled op = rw (overwrite_self (leaf_of y c op)) at (leaf-Settled op (leaf_of y c op))

  pub snoc-Settled :
      (v : Node)
      → is_sequence v ≡ true
      → Settled op_add (with_content v (snoc (content v) (encode_any c.want)))
  snoc-Settled (node sequence_node a items) s = record {
    present = unfold is_null in refl;
    kept = λ m key ptr.
        list-kept _ m key ptr refl
          (any_node-snoc (holds y c) items (encode_any c.want) holds-encode);
  }
  snoc-Settled (node _ a items) s = absurd (cc)

  -- A mapping in which the operation finds the settled value at its key.
  pub edit-Settled :
      (n : Node) (key ptr : Bytes) {v : Node}
      → lookup key (content n) ≡ some v
      → Settled c.op v
      → edit y c n key (lookup key (content n)) ptr ≡ ok (n, [])
  unfolding edit
  edit-Settled n key ptr e s = rw (e, s.present) (s.kept n key ptr)
