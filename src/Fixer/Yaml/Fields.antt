-- ===== src/Fixer/Yaml/Fields.antt =====
-- Laws of `lookup` in internal/fixer/fixer.go and of writes through the pointer that it returns.
use mathlib.Core.Path.{subst}
use aegis_ebpf.Base.{
  ◌≡◌, refl, sym, ap, ◌∙◌, inl, inr, Bool-cases, Bool, true, false, none, some, arith, Bytes,
  =b_self,
}
use aegis_ebpf.Fixer.Yaml.{
  NodeKind, mapping_node, content, is_mapping, Node, node, Nodes, nil, cons, names_key, key_node,
  lookup, store, snoc, any_node,
}

-- A mapping holds pairs.
unfoldable pub is_even : Nodes → Bool
is_even nil = true
is_even (cons k nil) = false
is_even (cons k (cons v rest)) = is_even rest

same : {a b : Node} → some a ≡ some b → b ≡ a
same h = cc

module _ (key : Bytes) (k v : Node) (rest : Nodes) where
  lookup_hit : names_key key k ≡ true → lookup key (cons k (cons v rest)) ≡ some v
  unfolding lookup
  lookup_hit e = rw e

  lookup_miss : names_key key k ≡ false → lookup key (cons k (cons v rest)) ≡ lookup key rest
  unfolding lookup
  lookup_miss e = rw e

  store_hit :
      (w : Node)
      → names_key key k ≡ true
      → store key w (cons k (cons v rest)) ≡ cons k (cons w rest)
  unfolding store
  store_hit w e = rw e

  store_miss :
      (w : Node)
      → names_key key k ≡ false
      → store key w (cons k (cons v rest)) ≡ cons k (cons v (store key w rest))
  unfolding store
  store_miss w e = rw e

module _ (key : Bytes) where
  pub lookup-store :
      (w : Node) (c : Nodes) {v : Node}
      → lookup key c ≡ some v
      → lookup key (store key w c) ≡ some w
  lookup-store w nil h = absurd (unfold lookup in cc)
  lookup-store w (cons k nil) h = absurd (unfold lookup in cc)
  lookup-store w (cons k (cons u rest)) h = elim (Bool-cases (names_key key k)) [
    | inl e ↦ rw (store_hit key k u rest w e) (lookup_hit key k w rest e)
    | inr e ↦
        rw (store_miss key k u rest w e)
          (lookup_miss key k u _ e ∙ lookup-store w rest (sym (lookup_miss key k u rest e) ∙ h))
  ]

  pub store-store : (w u : Node) (c : Nodes) → store key w (store key u c) ≡ store key w c
  store-store w u nil = unfold store in refl
  store-store w u (cons k nil) = unfold store in refl
  store-store w u (cons k (cons v rest)) = elim (Bool-cases (names_key key k)) [
    | inl e ↦
        ap (store key w) (store_hit key k v rest u e)
        ∙ store_hit key k u rest w e
        ∙ sym (store_hit key k v rest w e)
    | inr e ↦
        ap (store key w) (store_miss key k v rest u e)
        ∙ store_miss key k v _ w e
        ∙ ap (λ r. cons k (cons v r)) (store-store w u rest)
        ∙ sym (store_miss key k v rest w e)
  ]

  pub store-lookup : (c : Nodes) {v : Node} → lookup key c ≡ some v → store key v c ≡ c
  store-lookup nil h = unfold store in refl
  store-lookup (cons k nil) h = unfold store in refl
  store-lookup (cons k (cons u rest)) {v} h = elim (Bool-cases (names_key key k)) [
    | inl e ↦
        store_hit key k u rest v e
        ∙ ap (λ x. cons k (cons x rest)) (same (sym (lookup_hit key k u rest e) ∙ h))
    | inr e ↦
        store_miss key k u rest v e
        ∙ ap (λ r. cons k (cons u r)) (store-lookup rest (sym (lookup_miss key k u rest e) ∙ h))
  ]

  pub lookup-snoc :
      (w : Node) (c : Nodes)
      → is_even c ≡ true
      → lookup key c ≡ none
      → lookup key (snoc (snoc c (key_node key)) w) ≡ some w
  unfolding lookup snoc is_even names_key
  lookup-snoc w nil e h = ground (arith, =b_self key)
  lookup-snoc w (cons k nil) e h = cc
  lookup-snoc w (cons k (cons v rest)) e h = ground (arith, lookup-snoc w rest)

pub is_even-store : (key : Bytes) (w : Node) (c : Nodes) → is_even (store key w c) ≡ is_even c
unfolding store is_even
is_even-store key w nil = refl
is_even-store key w (cons k nil) = refl
is_even-store key w (cons k (cons v rest)) = ground (arith, is_even-store key w rest)

pub is_even-snoc : (k w : Node) (c : Nodes) → is_even (snoc (snoc c k) w) ≡ is_even c
unfolding snoc is_even
is_even-snoc k w nil = refl
is_even-snoc k w (cons a nil) = refl
is_even-snoc k w (cons a (cons b rest)) = is_even-snoc k w rest

pub any_node-snoc :
    (p : Node → Bool) (c : Nodes) (w : Node) → p w ≡ true → any_node p (snoc c w) ≡ true
unfolding snoc
any_node-snoc p nil w h = ground arith
any_node-snoc p (cons n c) w h = ground (arith, any_node-snoc p c w h)

abbrev pub Pairs : NodeKind → Nodes → Type 0
Pairs mapping_node c = is_even c ≡ true
Pairs _ c = Unit

-- Every mapping of the tree holds pairs, as in each tree that the decoder builds.
unfoldable mutual
  pub IsTree : Node → Type 0
  IsTree (node k a c) = Pairs k c × AreTrees c

  pub AreTrees : Nodes → Type 0
  AreTrees nil = Unit
  AreTrees (cons n ns) = IsTree n × AreTrees ns

pub AreTrees-content : (n : Node) → IsTree n → AreTrees (content n)
unfolding IsTree
AreTrees-content (node k a c) t = t.1

pub IsTree-even : (n : Node) → IsTree n → is_mapping n ≡ true → is_even (content n) ≡ true
unfolding IsTree
IsTree-even (node mapping_node a c) t m = t.0
IsTree-even (node _ a c) t m = cc

pub IsTree-lookup :
    (key : Bytes) (c : Nodes) {v : Node} → AreTrees c → lookup key c ≡ some v → IsTree v
unfolding AreTrees
IsTree-lookup key nil t h = absurd (unfold lookup in cc)
IsTree-lookup key (cons k nil) t h = absurd (unfold lookup in cc)
IsTree-lookup key (cons k (cons u rest)) t h = elim (Bool-cases (names_key key k)) [
  | inl e ↦ subst IsTree (same (sym h ∙ lookup_hit key k u rest e)) t.1.0
  | inr e ↦ IsTree-lookup key rest t.1.1 (sym (lookup_miss key k u rest e) ∙ h)
]
