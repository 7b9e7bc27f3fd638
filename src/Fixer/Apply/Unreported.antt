-- ===== src/Fixer/Apply/Unreported.antt =====
-- `inspect` and `Apply` of internal/fixer/fixer.go on one document: without a reported edit it is left alone.
use mathlib.Core.Path.{subst}
use aegis_ebpf.Base.{
  ◌≡◌, inl, inr, refl, sym, ◌∙◌, ap, List, [], ◌∷◌, ◌++◌, Option, none, some, Bytes, ok, >>=-ok,
  Bool-cases, ◌&&◌,
}
use aegis_ebpf.Fixer.Apply.{
  put_back_option, below, at_keys, in_root, put_root_option, in_document, on_workload, identity_of,
  pod_spec_path,
}
use aegis_ebpf.Fixer.Engine.Lists.{with_content_self}
use aegis_ebpf.Fixer.Engine.Repeats.{edited}
use aegis_ebpf.Fixer.Engine.Silent.{store-same_at, reports, run_plan-silent}
use aegis_ebpf.Fixer.Engine.{Edit, run_plan}
use aegis_ebpf.Fixer.Operation.{Compiled}
use aegis_ebpf.Fixer.Yaml.{
  Node, Nodes, nil, cons, content, with_content, is_document, is_mapping, lookup, Yaml,
}

module _ (y : Yaml) where
  open y use {Any}

  -- An edit, if there is one, that leaves the node when it reports nothing.
  abbrev pub SilentAt : Node → Option (Edit Any) → Type 0
  SilentAt n none = Unit
  SilentAt n (some edit) = (n' : Node) → edit ≡ ok (n', []) → n' ≡ n

  put_back-SilentAt :
      (n : Node) (key : Bytes) (v : Node) (o : Option (Edit Any))
      → lookup key (content n) ≡ some v
      → SilentAt v o
      → SilentAt n (put_back_option y n key o)
  put_back-SilentAt n key v none l s = tt
  put_back-SilentAt n key v (some edit) l s = λ n' h.
      let ((v', o), done, put) = >>=-ok edit _ h in
      edited put
      ∙ store-same_at y n key v v' l
          (s v' (subst (λ x. edit ≡ ok (v', x)) (sym (reports put)) done))

  at_keys-SilentAt :
      (keys : List Bytes) (f : Node → Bytes → Edit Any) (n : Node) (ptr : Bytes)
      → ((m : Node) (p : Bytes) (m' : Node) → f m p ≡ ok (m', []) → m' ≡ m)
      → SilentAt n (at_keys y keys f n ptr)
  unfolding at_keys
  at_keys-SilentAt [] f n ptr s = λ n' h. s n ptr n' h
  at_keys-SilentAt (key ∷ keys) f n ptr s =
      child (lookup key (content n)) refl (λ v. at_keys-SilentAt keys f v (ptr ++ b'/' ∷ key) s)
    where
      child :
          (o : Option Node)
          → lookup key (content n) ≡ o
          → ((v : Node) → SilentAt v (at_keys y keys f v (ptr ++ b'/' ∷ key)))
          → SilentAt n (below y (at_keys y keys f) n key ptr o)
      child none l r = tt
      child (some v) l r = elim (Bool-cases (is_mapping v)) [
        | inl m ↦ rw m (put_back-SilentAt n key v (at_keys y keys f v (ptr ++ b'/' ∷ key)) l (r v))
        | inr m ↦ rw m tt
      ]

  put_root-SilentAt :
      (doc root : Node) (others : Nodes) (o : Option (Edit Any))
      → content doc ≡ cons root others
      → SilentAt root o
      → SilentAt doc (put_root_option y doc others o)
  put_root-SilentAt doc root others none l s = tt
  put_root-SilentAt doc root others (some edit) l s = λ n' h.
      let ((r, o), done, put) = >>=-ok edit _ h in
      edited put
      ∙ ap (λ m. with_content doc (cons m others))
          (s r (subst (λ x. edit ≡ ok (r, x)) (sym (reports put)) done))
      ∙ ap (with_content doc) (sym l)
      ∙ with_content_self y doc

  in_document-SilentAt :
      (f : Node → Bytes → Edit Any) (doc : Node) (c : Nodes)
      → content doc ≡ c
      → ((m : Node) (p : Bytes) (m' : Node) → f m p ≡ ok (m', []) → m' ≡ m)
      → SilentAt doc (in_document y f doc c)
  unfolding in_document in_root
  in_document-SilentAt f doc nil l s = tt
  in_document-SilentAt f doc (cons root others) l s =
      elim (Bool-cases (is_document doc && is_mapping root)) [
        | inl m ↦ rw m (
            put_root-SilentAt doc root others
              (in_root y f root (pod_spec_path (identity_of root).kind)) l
              (from_root (pod_spec_path (identity_of root).kind)))
        | inr m ↦ rw m tt
      ]
    where
      from_root : (o : Option (List Bytes)) → SilentAt root (in_root y f root o)
      from_root none = tt
      from_root (some keys) = at_keys-SilentAt keys f root [] s

  pub on_workload-SilentAt :
      (plan : List (Compiled Any)) (doc : Node) → SilentAt doc (on_workload y (run_plan y plan) doc)
  unfolding on_workload
  on_workload-SilentAt plan doc =
      in_document-SilentAt (run_plan y plan) doc (content doc) refl
        (λ m p m'. run_plan-silent y plan m p m')
