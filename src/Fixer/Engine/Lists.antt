-- ===== src/Fixer/Engine/Lists.antt =====
-- The loop of `walk` of internal/fixer/fixer.go over the items of a list, run a second time.
use aegis_ebpf.Base.{
  ℕ, ◌+◌, ◌≡◌, refl, ◌∙◌, ap, false, List, [], Option, none, some, Bytes, ok, Bool-cases, inl, inr,
  if◌then◌else◌, >>=-ok,
}
use aegis_ebpf.Fixer.Engine.Repeats.{edited, content-with}
use aegis_ebpf.Fixer.Operation.{PatchOp}
use aegis_ebpf.Fixer.Path.{Selector}
use aegis_ebpf.Fixer.Yaml.Fields.{lookup-store, store-store}
use aegis_ebpf.Fixer.Yaml.{
  Attrs, sequence_node, Node, node, Nodes, nil, cons, content, with_content, lookup, store, Yaml,
  is_null,
}
use aegis_ebpf.Fixer.Engine.{Edit, selects, item_pointer, walk_items, through_list}

module _ (y : Yaml) where
  open y use {Any}

  abbrev pub Step : Type 0
  Step = Node → Bytes → Edit Any

  -- A second run changes nothing and reports nothing.
  abbrev pub IsIdempotent : Step → Node → Type 0
  IsIdempotent f n =
      (ptr : Bytes) (n' : Node) (ops : List (PatchOp Any))
      → f n ptr ≡ ok (n', ops)
      → f n' ptr ≡ ok (n', [])

  abbrev pub AllIdempotent : Step → Nodes → Type 0
  AllIdempotent f nil = Unit
  AllIdempotent f (cons n ns) = IsIdempotent f n × AllIdempotent f ns

  -- One item of the loop: walked if the selector takes it.
  abbrev item_step : Selector → Step → Bytes → ℕ → Node → Edit Any
  item_step sel sub ptr i item =
      if selects sel i item then sub item (item_pointer ptr i) else ok (item, [])

  item-again :
      (sel : Selector) (sub : Step) (ptr : Bytes) (i : ℕ) (item item' : Node)
      {ops : List (PatchOp Any)}
      → IsIdempotent sub item
      → item_step sel sub ptr i item ≡ ok (item', ops)
      → item_step sel sub ptr i item' ≡ ok (item', [])
  item-again sel sub ptr i item item' {ops} again h = elim (Bool-cases (selects sel i item)) [
    | inr skipped ↦ rw (edited (rw skipped at h)) (rw skipped)
    | inl taken ↦ elim (Bool-cases (selects sel i item')) [
      | inl still ↦ rw still (again (item_pointer ptr i) item' ops (rw taken at h))
      | inr gone ↦ rw gone
    ]
  ]

  walk_items-again :
      (sel : Selector) (sub : Step) (ptr : Bytes) (i : ℕ) (items : Nodes) (items' : Nodes)
      {ops : List (PatchOp Any)}
      → AllIdempotent sub items
      → walk_items y sel sub ptr i items ≡ ok (items', ops)
      → walk_items y sel sub ptr i items' ≡ ok (items', [])
  unfolding walk_items
  walk_items-again sel sub ptr i nil items' all h = rw (edited h)
  walk_items-again sel sub ptr i (cons item items) items' {ops} all h =
      let ((item', o), walked, more) = >>=-ok (item_step sel sub ptr i item) _ h in
      let ((rest, o'), walked', done) = >>=-ok (walk_items y sel sub ptr (i + 1) items) _ more in
      let here = item-again sel sub ptr i item item' all.0 walked in
      let later = walk_items-again sel sub ptr (i + 1) items rest all.1 walked' in
      rw (edited done) (rw here (rw later))

  pub with_content_self : (n : Node) → with_content n (content n) ≡ n
  with_content_self (node k a c) = refl

  with_content_twice :
      (n : Node) (c d : Nodes) → with_content (with_content n c) d ≡ with_content n d
  with_content_twice (node k a e) c d = refl

  -- A value stored where it stands already.
  store_back :
      (n : Node) (key : Bytes) (u : Node)
      → let m = with_content n (store key u (content n)) in
        with_content m (store key u (content m)) ≡ m
  store_back (node k a c) key u = ap (node k a) (store-store key u u c)

  module _ (n : Node) (key : Bytes) {v : Node} (e : lookup key (content n) ≡ some v)
      (u : Node) where
    abbrev stored : Node
    stored = with_content n (store key u (content n))

    pub lookup-stored : lookup key (content stored) ≡ some u
    lookup-stored = ap (lookup key) (content-with n _) ∙ lookup-store key u (content n) e

  null-sequence : (a : Attrs) (c : Nodes) → is_null y (node sequence_node a c) ≡ false
  unfolding is_null
  null-sequence a c = refl

  module _ (sel : Selector) (sub : Step) (key : Bytes) where
    list-again :
        (n : Node) (ptr : Bytes) (a : Attrs) (c items : Nodes)
        → lookup key (content n) ≡ some (node sequence_node a c)
        → walk_items y sel sub ptr 0 items ≡ ok (items, [])
        → let m = with_content n (store key (node sequence_node a items) (content n)) in
          through_list y sel sub m key (lookup key (content m)) ptr ≡ ok (m, [])
    unfolding through_list
    list-again n ptr a c items e again =
        let u = node sequence_node a items in
        rw (lookup-stored n key e u, null-sequence a items)
          (rw again (ap (λ m. ok (m, [])) (store_back n key u)))

    pub through_list-again :
        (n : Node) (ptr : Bytes) (old : Option Node) {n' : Node} {ops : List (PatchOp Any)}
        → ((v : Node) → old ≡ some v → AllIdempotent sub (content v))
        → lookup key (content n) ≡ old
        → through_list y sel sub n key old ptr ≡ ok (n', ops)
        → through_list y sel sub n' key (lookup key (content n')) ptr ≡ ok (n', [])
    unfolding through_list
    through_list-again n ptr none all e h = rw (edited h, e)
    through_list-again n ptr (some (node sequence_node a c)) all e h =
        let ((items, o), walked, done) =
          >>=-ok (walk_items y sel sub ptr 0 c) _ (rw (null-sequence a c) at h) in
        rw (edited done) (
          list-again n ptr a c items e (walk_items-again sel sub ptr 0 c items (all _ refl) walked))
    through_list-again n ptr (some (node k a c)) all e h =
        elim (Bool-cases (is_null y (node k a c))) [
          | inl null ↦ rw (edited (rw null at h), e, null)
          | inr present ↦ absurd (let h' = rw present at h in cc)
        ]
