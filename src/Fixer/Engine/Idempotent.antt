-- ===== src/Fixer/Engine/Idempotent.antt =====
-- One operation of a plan, applied to its own result by `walk` of internal/fixer/fixer.go, changes
-- nothing.
use aegis_ebpf.Fixer.Engine.Lists.{
  Step, IsIdempotent, AllIdempotent, with_content_self, lookup-stored, through_list-again,
}
use aegis_ebpf.Base.{
  ◌≡◌, refl, sym, ◌∙◌, ap, true, false, List, [], ◌∷◌, Option, none, some, Bytes, ok, Bool-cases,
  inl, inr, any, ◌>>=◌, >>=-ok, =b_self, codes,
}
use aegis_ebpf.Fixer.Engine.Kept.{edit-kept, through_key-kept, through_list-kept}
use aegis_ebpf.Fixer.Engine.Repeats.{edited, edit-Repeats, lookup-put, placed}
use aegis_ebpf.Fixer.Engine.Settled.{Storable, edit-Settled, leaf_new-Settled}
use aegis_ebpf.Fixer.Engine.Steps.{
  key_pointer, or_false, walk_mapping, walk_list, walk-edit, walk_key, through_key_present,
  through_key_null, through_key-none, create-put, create_skip, walk_empty,
}
use aegis_ebpf.Fixer.Operation.{Compiled, PatchOp, has_selector}
use aegis_ebpf.Fixer.Path.{Segment, FieldPath}
use aegis_ebpf.Fixer.Yaml.Fields.{
  IsTree, AreTrees, AreTrees-content, IsTree-even, IsTree-lookup, is_even, store-lookup,
}
use aegis_ebpf.Fixer.Yaml.{
  Attrs, Node, node, Nodes, nil, cons, content, with_content, is_mapping, lookup, store, Yaml,
  is_null, key_node, mapping_node, plain, names_key,
}
use aegis_ebpf.Fixer.Engine.{nest, leaf_of, create, through_key, walk}

module _ (y : Yaml) where
  open y use {Any}

  null-mapping : (v : Node) → is_mapping v ≡ true → is_null y v ≡ false
  unfolding is_null
  null-mapping (node mapping_node a c) m = refl
  null-mapping (node _ a c) m = absurd (cc)

  lookup-single : (key : Bytes) (v : Node) → lookup key (cons (key_node key) (cons v nil)) ≡ some v
  unfolding lookup names_key
  lookup-single key v = rw =b_self

  store-same :
      (n : Node) (key : Bytes) {v : Node}
      → lookup key (content n) ≡ some v
      → with_content n (store key v (content n)) ≡ n
  store-same n key e = rw (store-lookup key (content n) e) (with_content_self y n)

  module _ (c : Compiled Any) (w : Storable y c.want) where
    abbrev built : FieldPath → Node
    built rest = nest rest (leaf_of y c c.op)

    -- The mapping that `nest` builds for a path, whatever its attributes.
    abbrev frame : Attrs → Segment → FieldPath → Node
    frame a seg rest = node mapping_node a (cons (key_node seg.key) (cons (built rest) nil))

    -- A path down the mappings that `nest` has built: nothing is left to do.
    nest-done :
        (rest : FieldPath) (a : Attrs) (seg : Segment) (ptr : Bytes)
        → any has_selector (seg ∷ rest) ≡ false
        → walk y c (seg ∷ rest) (frame a seg rest) ptr ≡ ok (frame a seg rest, [])
    nest-done [] a seg ptr h =
        walk-edit y c _ ptr seg refl (or_false _ _ h).0
        ∙ edit-Settled y c w _ seg.key _ (lookup-single seg.key _) (leaf_new-Settled y c w c.op)
    nest-done (next ∷ rest) a seg ptr h =
        let m = frame a seg (next ∷ rest) in
        let found = lookup-single seg.key (built (next ∷ rest)) in
        let deeper =
          nest-done rest (plain (codes "!!map") []) next (key_pointer ptr seg) (or_false _ _ h).1 in
        walk_key y c m ptr seg refl next rest (or_false _ _ h).0
        ∙ ap
            (λ o.
              through_key y c (next ∷ rest) (walk y c (next ∷ rest)) m seg.key o
                (key_pointer ptr seg))
            found
        ∙ through_key_present y c (next ∷ rest) _ m seg.key _ _ (null-mapping _ refl)
        ∙ ap (λ r. r >>= λ (v', ops). ok (with_content m (store seg.key v' (content m)), ops))
            deeper
        ∙ ap (λ k. ok (k, [])) (store-same m seg.key found)

    module _ (seg next : Segment) (rest : FieldPath) (ptr : Bytes) where
      abbrev Again : Node → Type 0
      Again n =
          through_key y c (next ∷ rest) (walk y c (next ∷ rest)) n seg.key
            (lookup seg.key (content n)) ptr
          ≡ ok (n, [])

      -- A mapping whose value at the key is left alone by the rest of the path.
      Again-found :
          (n : Node) (v : Node)
          → lookup seg.key (content n) ≡ some v
          → walk y c (next ∷ rest) v ptr ≡ ok (v, [])
          → Again n
      Again-found n v e deeper =
          ap (λ o. through_key y c (next ∷ rest) (walk y c (next ∷ rest)) n seg.key o ptr) e
          ∙ through_key_present y c (next ∷ rest) _ n seg.key _ _
              (null-mapping v (walk_mapping y c v ptr (next ∷ rest) deeper))
          ∙ ap (λ r. r >>= λ (v', ops). ok (with_content n (store seg.key v' (content n)), ops))
              deeper
          ∙ ap (λ k. ok (k, [])) (store-same n seg.key e)

      frame_placed :
          (old : Option Node)
          → any has_selector (next ∷ rest) ≡ false
          → walk y c (next ∷ rest) (placed old (built (next ∷ rest))) ptr
            ≡ ok (placed old (built (next ∷ rest)), [])
      frame_placed none h = nest-done rest (plain (codes "!!map") []) next ptr h
      frame_placed (some (node k old x)) h =
          nest-done rest
            (record old {
              style = record { flow = false; others = 0 };
              tag = codes "!!map";
              value = [];
            })
            next ptr h

      create-Again :
          (n : Node) (old : Option Node) {n' : Node} {ops : List (PatchOp Any)}
          → is_even (content n) ≡ true
          → lookup seg.key (content n) ≡ old
          → (through_key y c (next ∷ rest) (walk y c (next ∷ rest)) n seg.key old ptr
              ≡ create y c (next ∷ rest) n seg.key old ptr)
          → create y c (next ∷ rest) n seg.key old ptr ≡ ok (n', ops)
          → Again n'
      create-Again n old even e path h = elim (Bool-cases (any has_selector (next ∷ rest))) [
        | inl skip ↦
            rw (edited (sym (create_skip y c (next ∷ rest) n seg.key ptr old skip) ∙ h))
              (rw e (path ∙ create_skip y c (next ∷ rest) n seg.key ptr old skip))
        | inr build ↦ rw (edited (sym (create-put y c (next ∷ rest) n seg.key ptr old build) ∙ h)) (
            Again-found _ (placed old (built (next ∷ rest)))
              (lookup-put y n seg.key old (built (next ∷ rest)) _ ptr even e)
              (frame_placed old build))
      ]

      through_key-Again :
          (n : Node) (old : Option Node) {n' : Node} {ops : List (PatchOp Any)}
          → is_even (content n) ≡ true
          → lookup seg.key (content n) ≡ old
          → ((v : Node) → old ≡ some v → IsIdempotent y (walk y c (next ∷ rest)) v)
          → through_key y c (next ∷ rest) (walk y c (next ∷ rest)) n seg.key old ptr ≡ ok (n', ops)
          → Again n'
      through_key-Again n none even e deeper h =
          let path = through_key-none y c (next ∷ rest) (walk y c (next ∷ rest)) n seg.key ptr in
          create-Again n none even e path (sym path ∙ h)
      through_key-Again n (some v) even e deeper h = elim (Bool-cases (is_null y v)) [
        | inl null ↦
            let path =
              through_key_null y c (next ∷ rest) (walk y c (next ∷ rest)) n seg.key ptr v null in
            create-Again n (some v) even e path (sym path ∙ h)
        | inr present ↦
            let h' = sym (through_key_present y c (next ∷ rest) _ n seg.key ptr v present) ∙ h in
            let ((v', o), walked, done) = >>=-ok (walk y c (next ∷ rest) v ptr) _ h' in
            rw (edited done)
              (Again-found _ v' (lookup-stored y n seg.key e v') (deeper v refl ptr v' o walked))
      ]

    all-again :
        (f : Step y)
        → ((n : Node) → IsTree n → IsIdempotent y f n)
        → (ns : Nodes) → AreTrees ns
        → AllIdempotent y f ns
    unfolding AreTrees
    all-again f one nil t = tt
    all-again f one (cons n ns) t = (one n t.0, all-again f one ns t.1)

    -- The first segment of a path, with what the recursive call does to the nodes below.
    module _ (n : Node) (t : IsTree n) (seg : Segment) (m : is_mapping n ≡ true) (ptr : Bytes) where
      list_segment-again :
          (rest : FieldPath) {n' : Node} {ops : List (PatchOp Any)}
          → ((v : Node) → IsTree v → IsIdempotent y (walk y c rest) v)
          → has_selector seg ≡ true
          → walk y c (seg ∷ rest) n ptr ≡ ok (n', ops)
          → walk y c (seg ∷ rest) n' ptr ≡ ok (n', [])
      list_segment-again rest {n'} deeper s h =
          let h' = sym (walk_list y c n ptr seg m rest s) ∙ h in
          let m' =
            through_list-kept y n seg.key (key_pointer ptr seg) seg.sel (walk y c rest) _ h' ∙ m in
          walk_list y c n' ptr seg m' rest s
          ∙ through_list-again y seg.sel (walk y c rest) seg.key n (key_pointer ptr seg) _
              (λ v e.
                all-again (walk y c rest) deeper (content v)
                  (AreTrees-content v (IsTree-lookup seg.key (content n) (AreTrees-content n t) e)))
              refl h'

      edit_segment-again :
          {n' : Node} {ops : List (PatchOp Any)}
          → has_selector seg ≡ false
          → walk y c (seg ∷ []) n ptr ≡ ok (n', ops)
          → walk y c (seg ∷ []) n' ptr ≡ ok (n', [])
      edit_segment-again {n'} s h =
          let h' = sym (walk-edit y c n ptr seg m s) ∙ h in
          let m' = edit-kept y n seg.key (key_pointer ptr seg) c _ h' ∙ m in
          walk-edit y c n' ptr seg m' s
          ∙ edit-Repeats y c w n seg.key (key_pointer ptr seg) _ (IsTree-even n t m) refl h'

      key_segment-again :
          (next : Segment) (rest : FieldPath) {n' : Node} {ops : List (PatchOp Any)}
          → ((v : Node) → IsTree v → IsIdempotent y (walk y c (next ∷ rest)) v)
          → has_selector seg ≡ false
          → walk y c (seg ∷ next ∷ rest) n ptr ≡ ok (n', ops)
          → walk y c (seg ∷ next ∷ rest) n' ptr ≡ ok (n', [])
      key_segment-again next rest {n'} deeper s h =
          let h' = sym (walk_key y c n ptr seg m next rest s) ∙ h in
          let m' =
            through_key-kept y n seg.key (key_pointer ptr seg) c (next ∷ rest)
              (walk y c (next ∷ rest)) _ h'
            ∙ m in
          walk_key y c n' ptr seg m' next rest s
          ∙ through_key-Again seg next rest (key_pointer ptr seg) n _ (IsTree-even n t m) refl
              (λ v e. deeper v (IsTree-lookup seg.key (content n) (AreTrees-content n t) e)) h'

    walk-again : (path : FieldPath) (n : Node) → IsTree n → IsIdempotent y (walk y c path) n
    walk-again [] n t ptr n' ops h = absurd (walk_empty y c n ptr h)
    walk-again (seg ∷ []) n t ptr n' ops h =
        let m = walk_mapping y c n ptr (seg ∷ []) h in
        elim (Bool-cases (has_selector seg)) [
          | inl s ↦ list_segment-again n t seg m ptr [] (walk-again []) s h
          | inr s ↦ edit_segment-again n t seg m ptr s h
        ]
    walk-again (seg ∷ next ∷ rest) n t ptr n' ops h =
        let m = walk_mapping y c n ptr (seg ∷ next ∷ rest) h in
        elim (Bool-cases (has_selector seg)) [
          | inl s ↦ list_segment-again n t seg m ptr (next ∷ rest) (walk-again (next ∷ rest)) s h
          | inr s ↦ key_segment-again n t seg m ptr next rest (walk-again (next ∷ rest)) s h
        ]

-- An operation applied to its own result changes nothing and reports no edit, on every tree whose
-- mappings hold pairs, at every path, for a value that the library writes and reads back.
pub walk_idempotent :
    (y : Yaml) (c : Compiled (Yaml.Any y))
    → Storable y c.want
    → (path : FieldPath) (n : Node) (ptr : Bytes) (n' : Node) (ops : List (PatchOp (Yaml.Any y)))
    → IsTree n
    → walk y c path n ptr ≡ ok (n', ops)
    → walk y c path n' ptr ≡ ok (n', [])
walk_idempotent y c w path n ptr n' ops t = walk-again y c w path n t ptr n' ops
