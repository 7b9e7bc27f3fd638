-- ===== src/Fixer/Apply/Workloads.antt =====
-- The workloads that `inspect` of internal/fixer/fixer.go finds.
use aegis_ebpf.Base.{
  ◌≡◌, ◌⊎◌, inl, inr, refl, true, List, [], ◌∷◌, ◌++◌, Option, none, some, Bytes, codes, ◌=b◌,
  =b_iff, Bool-cases, if◌then◌else◌, ◌&&◌, arith,
}
use aegis_ebpf.Fixer.Apply.{
  put_back_option, put_root_option, below, at_keys, in_root, in_document, on_workload, identity_of,
  pod_spec_path, template_spec,
}
use aegis_ebpf.Fixer.Engine.{Edit}
use aegis_ebpf.Fixer.Yaml.{Node, Nodes, nil, cons, content, is_document, is_mapping, lookup, Yaml}

-- The kinds with a template of pods.
abbrev pub IsTemplated : Bytes → Type 0
IsTemplated kind =
    (kind ≡ codes "Deployment")
    ⊎ (kind ≡ codes "ReplicaSet")
    ⊎ (kind ≡ codes "ReplicationController")
    ⊎ (kind ≡ codes "StatefulSet")
    ⊎ (kind ≡ codes "DaemonSet")
    ⊎ (kind ≡ codes "Job")

-- The keys that lead to the pod spec of a kind.
abbrev pub SpecAt : Bytes → List Bytes → Type 0
SpecAt kind keys =
    ((kind ≡ codes "Pod") × (keys ≡ codes "spec" ∷ []))
    ⊎ (IsTemplated kind × (keys ≡ codes "spec" ∷ codes "template" ∷ codes "spec" ∷ []))
    ⊎ ((kind ≡ codes "CronJob")
        × (keys
            ≡ codes "spec"
              ∷ codes "jobTemplate"
              ∷ codes "spec"
              ∷ codes "template"
              ∷ codes "spec"
              ∷ []))

-- Each key has a mapping behind it.
abbrev pub Leads : List Bytes → Node → Type 0
Leads [] n = Unit
Leads (key ∷ keys) n =
    (v : Node) × (lookup key (content n) ≡ some v) × (is_mapping v ≡ true) × Leads keys v

-- A document with a pod spec.
abbrev pub IsWorkload : Node → Type 0
IsWorkload doc =
    (root : Node) × (others : Nodes) × (keys : List Bytes) × (content doc ≡ cons root others)
    × (is_document doc ≡ true)
    × (is_mapping root ≡ true)
    × SpecAt (identity_of root).kind keys
    × Leads keys root

chosen_kind :
    {P : Type 0}
    → (kind name : Bytes) (path keys : List Bytes) (rest : Option (List Bytes))
    → (if kind =b name then some path else rest) ≡ some keys
    → (kind ≡ name → keys ≡ path → P)
    → (rest ≡ some keys → P)
    → P
chosen_kind kind name path keys rest h this later = elim (Bool-cases (kind =b name)) [
  | inl e ↦ this ((=b_iff kind name).0 e) (same path keys (rw e at h))
  | inr e ↦ later (rw e at h)
]
  where
    same : (a b : List Bytes) → some a ≡ some b → b ≡ a
    same a b e = cc

pod_spec_path_sound :
    (kind : Bytes) (keys : List Bytes) → pod_spec_path kind ≡ some keys → SpecAt kind keys
unfolding pod_spec_path
pod_spec_path_sound kind keys h =
    chosen_kind kind (codes "Pod") (codes "spec" ∷ []) keys _ h (λ e k. inl (e, k))
      (λ h0.
        chosen_kind kind (codes "Deployment") template_spec keys _ h0
          (λ e k. inr (inl (inl (e), k)))
          (λ h1.
            chosen_kind kind (codes "ReplicaSet") template_spec keys _ h1
              (λ e k. inr (inl (inr (inl (e)), k)))
              (λ h2.
                chosen_kind kind (codes "ReplicationController") template_spec keys _ h2
                  (λ e k. inr (inl (inr (inr (inl (e))), k)))
                  (λ h3.
                    chosen_kind kind (codes "StatefulSet") template_spec keys _ h3
                      (λ e k. inr (inl (inr (inr (inr (inl (e)))), k)))
                      (λ h4.
                        chosen_kind kind (codes "DaemonSet") template_spec keys _ h4
                          (λ e k. inr (inl (inr (inr (inr (inr (inl (e))))), k)))
                          (λ h5.
                            chosen_kind kind (codes "Job") template_spec keys _ h5
                              (λ e k. inr (inl (inr (inr (inr (inr (inr ((e)))))), k)))
                              (λ last.
                                chosen_kind kind (codes "CronJob")
                                  (codes "spec" ∷ codes "jobTemplate" ∷ template_spec) keys _ last
                                  (λ e k. inr (inr (e, k))) (λ none_left. absurd (cc)))))))))

pod_spec_path_complete :
    (kind : Bytes) (keys : List Bytes) → SpecAt kind keys → pod_spec_path kind ≡ some keys
unfolding pod_spec_path ◌=b◌
pod_spec_path_complete kind keys (inl (e, k)) = rw e (rw k refl)
pod_spec_path_complete kind keys (inr (inl (inl e, k))) = rw e (rw k refl)
pod_spec_path_complete kind keys (inr (inl (inr (inl e), k))) = rw e (rw k refl)
pod_spec_path_complete kind keys (inr (inl (inr (inr (inl e)), k))) = rw e (rw k refl)
pod_spec_path_complete kind keys (inr (inl (inr (inr (inr (inl e))), k))) = rw e (rw k refl)
pod_spec_path_complete kind keys (inr (inl (inr (inr (inr (inr (inl e)))), k))) = rw e (rw k refl)
pod_spec_path_complete kind keys (inr (inl (inr (inr (inr (inr (inr e)))), k))) = rw e (rw k refl)
pod_spec_path_complete kind keys (inr (inr (e, k))) = rw e (rw k refl)

module _ (y : Yaml) where
  open y use {Any}

  -- There is an edit.
  abbrev Some : Option (Edit Any) → Type 0
  Some o = (e : Edit Any) × (o ≡ some e)

  put_back-Some :
      (n : Node) (key : Bytes) (o : Option (Edit Any)) → Some (put_back_option y n key o) → Some o
  put_back-Some n key none (e, h) = absurd (cc)
  put_back-Some n key (some edit) (e, h) = (edit, refl)

  at_keys_sound :
      (keys : List Bytes) (f : Node → Bytes → Edit Any) (n : Node) (ptr : Bytes)
      → Some (at_keys y keys f n ptr)
      → Leads keys n
  unfolding at_keys below
  at_keys_sound [] f n ptr s = tt
  at_keys_sound (key ∷ keys) f n ptr s =
      child (lookup key (content n)) refl s (λ v. at_keys_sound keys f v (ptr ++ b'/' ∷ key))
    where
      never : Some none → ⊥
      never (e, h) = cc

      child :
          (o : Option Node)
          → lookup key (content n) ≡ o
          → Some (below y (at_keys y keys f) n key ptr o)
          → ((v : Node) → Some (at_keys y keys f v (ptr ++ b'/' ∷ key)) → Leads keys v)
          → Leads (key ∷ keys) n
      child none l s r = absurd (never s)
      child (some v) l s r = elim (Bool-cases (is_mapping v)) [
        | inl m ↦ (v, l, m, r v (put_back-Some n key _ (rw m at s)))
        | inr m ↦ absurd (never (rw m at s))
      ]

  at_keys_complete :
      (keys : List Bytes) (f : Node → Bytes → Edit Any) (n : Node) (ptr : Bytes)
      → Leads keys n
      → Some (at_keys y keys f n ptr)
  unfolding at_keys below
  at_keys_complete [] f n ptr s = (_, refl)
  at_keys_complete (key ∷ keys) f n ptr (v, l, m, leads) =
      let (e, h) = at_keys_complete keys f v (ptr ++ b'/' ∷ key) leads in
      rw l (rw m (rw h (_, refl)))

  put_root-Some :
      (doc : Node) (others : Nodes) (o : Option (Edit Any))
      → Some (put_root_option y doc others o)
      → Some o
  put_root-Some doc others none (e, h) = absurd (cc)
  put_root-Some doc others (some edit) (e, h) = (edit, refl)

  in_root_sound :
      (f : Node → Bytes → Edit Any) (root : Node) (o : Option (List Bytes))
      → Some (in_root y f root o)
      → (keys : List Bytes) × (o ≡ some keys) × Leads keys root
  unfolding in_root
  in_root_sound f root none (e, h) = absurd (cc)
  in_root_sound f root (some keys) s = (keys, refl, at_keys_sound keys f root [] s)

  in_document_sound :
      (f : Node → Bytes → Edit Any) (doc : Node) (c : Nodes)
      → content doc ≡ c
      → Some (in_document y f doc c)
      → IsWorkload doc
  unfolding in_document
  in_document_sound f doc nil l (e, h) = absurd (cc)
  in_document_sound f doc (cons root others) l s =
      elim (Bool-cases (is_document doc && is_mapping root)) [
        | inr m ↦ absurd (never (rw m at s))
        | inl m ↦
            let (keys, path, leads) =
              in_root_sound f root _ (put_root-Some doc others _ (rw m at s)) in
            let parts : (is_document doc ≡ true) × (is_mapping root ≡ true) = ground (arith, m) in
            (root, others, keys, l, parts.0, parts.1, pod_spec_path_sound _ keys path, leads)
      ]
    where
      never : Some none → ⊥
      never (e, h) = cc

  -- Where there is an edit the document is a workload, and where there is none it is not.
  pub on_workload_sound :
      (f : Node → Bytes → Edit Any) (doc : Node) (e : Edit Any)
      → on_workload y f doc ≡ some e
      → IsWorkload doc
  unfolding on_workload
  on_workload_sound f doc e h = in_document_sound f doc (content doc) refl (e, h)

  on_workload_found :
      (f : Node → Bytes → Edit Any) (doc : Node) → IsWorkload doc → Some (on_workload y f doc)
  unfolding on_workload in_document in_root
  on_workload_found f doc (root, others, keys, l, d, m, path, leads) =
      let (e, h) = at_keys_complete keys f root [] leads in
      rw l
        (rw (d, m) (rw (pod_spec_path_complete (identity_of root).kind keys path) (rw h (_, refl))))

  pub on_workload_complete :
      (f : Node → Bytes → Edit Any) (doc : Node) → on_workload y f doc ≡ none → IsWorkload doc → ⊥
  on_workload_complete f doc h w = let (e, found) = on_workload_found f doc w in cc
