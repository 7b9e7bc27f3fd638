-- ===== src/Fixer/Engine/Steps.antt =====
-- `walk` of internal/fixer/fixer.go, one segment at a time.
use aegis_ebpf.Base.{
  ◌≡◌, refl, Bool, true, false, List, [], ◌∷◌, ◌++◌, Option, none, some, Bytes, ok, Bool-cases, inl,
  inr, ◌>>=◌, ◌||◌, any, arith,
}
use aegis_ebpf.Fixer.Engine.{
  Edit, escape, put, edit, through_list, through_key, create, step, walk, nest, nest_value, leaf_of,
  leaf_value_of,
}
use aegis_ebpf.Fixer.Operation.{Compiled, PatchOp, has_selector}
use aegis_ebpf.Fixer.Path.{Segment, FieldPath}
use aegis_ebpf.Fixer.Yaml.{Node, content, with_content, is_mapping, lookup, store, Yaml, is_null}

-- The pointer of a key in the mapping at `ptr`.
abbrev pub key_pointer : Bytes → Segment → Bytes
key_pointer ptr seg = ptr ++ b'/' ∷ escape seg.key

pub or_false : (a b : Bool) → (a || b) ≡ false → (a ≡ false) × (b ≡ false)
or_false a b h = ground arith

module _ (y : Yaml) (c : Compiled (Yaml.Any y)) (n : Node) (ptr : Bytes) where
  pub walk_mapping :
      (path : FieldPath) {r : Node × List (PatchOp (Yaml.Any y))}
      → walk y c path n ptr ≡ ok r
      → is_mapping n ≡ true
  unfolding walk
  walk_mapping [] h = elim (Bool-cases (is_mapping n)) [
    | inl m ↦ m
    | inr m ↦ absurd (let h' = rw m at h in cc)
  ]
  walk_mapping (seg ∷ rest) h = elim (Bool-cases (is_mapping n)) [
    | inl m ↦ m
    | inr m ↦ absurd (let h' = rw m at h in cc)
  ]

  pub walk_empty : {r : Node × List (PatchOp (Yaml.Any y))} → walk y c [] n ptr ≡ ok r → ⊥
  unfolding walk
  walk_empty h = elim (Bool-cases (is_mapping n)) [
    | inl m ↦ let h' = rw m at h in cc
    | inr m ↦ let h' = rw m at h in cc
  ]

  module _ (seg : Segment) (m : is_mapping n ≡ true) where
    pub walk_list :
        (rest : FieldPath)
        → has_selector seg ≡ true
        → walk y c (seg ∷ rest) n ptr
          ≡ through_list y seg.sel
              (walk y c rest)
              n
              seg.key
              (lookup seg.key (content n))
              (key_pointer ptr seg)
    unfolding walk step
    walk_list [] s = rw (m, s)
    walk_list (next ∷ rest) s = rw (m, s)

    pub walk-edit :
        has_selector seg ≡ false
        → walk y c (seg ∷ []) n ptr
          ≡ edit y c n seg.key (lookup seg.key (content n)) (key_pointer ptr seg)
    unfolding walk step
    walk-edit s = rw (m, s)

    pub walk_key :
        (next : Segment) (rest : FieldPath)
        → has_selector seg ≡ false
        → walk y c (seg ∷ next ∷ rest) n ptr
          ≡ through_key y c
              (next ∷ rest)
              (walk y c (next ∷ rest))
              n
              seg.key
              (lookup seg.key (content n))
              (key_pointer ptr seg)
    unfolding walk step
    walk_key next rest s = rw (m, s)

module _ (y : Yaml) (c : Compiled (Yaml.Any y)) (rest : FieldPath) where
  pub through_key_present :
      (sub : Node → Bytes → Edit (Yaml.Any y)) (n : Node) (key ptr : Bytes) (v : Node)
      → is_null y v ≡ false
      → through_key y c rest sub n key (some v) ptr
        ≡ (sub v ptr >>= λ (v', ops). ok (with_content n (store key v' (content n)), ops))
  unfolding through_key
  through_key_present sub n key ptr v p = rw p

  pub through_key_null :
      (sub : Node → Bytes → Edit (Yaml.Any y)) (n : Node) (key ptr : Bytes) (v : Node)
      → is_null y v ≡ true
      → through_key y c rest sub n key (some v) ptr ≡ create y c rest n key (some v) ptr
  unfolding through_key
  through_key_null sub n key ptr v p = rw p

  pub through_key-none :
      (sub : Node → Bytes → Edit (Yaml.Any y)) (n : Node) (key ptr : Bytes)
      → through_key y c rest sub n key none ptr ≡ create y c rest n key none ptr
  unfolding through_key
  through_key-none sub n key ptr = refl

  pub create-put :
      (n : Node) (key ptr : Bytes) (old : Option Node)
      → any has_selector rest ≡ false
      → create y c rest n key old ptr
        ≡ ok (
            put y n key old
              (nest rest (leaf_of y c c.op))
              (nest_value rest (leaf_value_of y c c.op))
              ptr)
  unfolding create
  create-put n key ptr old h = rw h

  pub create_skip :
      (n : Node) (key ptr : Bytes) (old : Option Node)
      → any has_selector rest ≡ true
      → create y c rest n key old ptr ≡ ok (n, [])
  unfolding create
  create_skip n key ptr old h = rw h
