-- ===== src/Fixer/Apply/Errors.antt =====
-- Which errors `Apply` of internal/fixer/fixer.go returns for a plan that compiles.
use aegis_ebpf.Base.{
  ℕ, ◌+◌, ◌≡◌, Bool, true, false, ◌&&◌, List, [], ◌∷◌, ◌++◌, Option, none, some, Bytes, Result, ok,
  err, All, if◌then◌else◌, ◌==◌,
}
use aegis_ebpf.Fixer.Apply.{
  DocumentPatch, Applied, rendered, apply_document, apply_from, at_keys, below, in_root,
  in_document, on_workload, decoded, finish_apply, apply, pod_spec_path, identity_of,
  put_back_option, put_root_option,
}
use aegis_ebpf.Fixer.Engine.Errors.{
  IsExpected, FailsWell, well, expected, FailsWell-err, if-FailsWell, bind-FailsWell, EndsInField,
  run_plan-FailsWell,
}
use aegis_ebpf.Fixer.Engine.{Edit, edit, run_plan}
use aegis_ebpf.Fixer.Operation.{Operation, Compiled, ApplyError, syntax, no_workload, compile}
use aegis_ebpf.Fixer.Yaml.{Node, Nodes, nil, cons, lookup, content, is_mapping, is_document, Yaml}
use aegis_ebpf.Fixer.Operation.Ends.{compile-EndsInField}
use aegis_ebpf.Fixer.Render.Errors.{render-FailsWell}

module _ (y : Yaml) where
  open y use {Any}

  -- What a document has to do with an edit, if it is a workload.
  abbrev EditFailsWell : Option (Edit Any) → Type 0
  EditFailsWell none = Unit
  EditFailsWell (some edit) = FailsWell edit

  put_back-FailsWell :
      (n : Node) (key : Bytes) (o : Option (Edit Any))
      → EditFailsWell o
      → EditFailsWell (put_back_option y n key o)
  put_back-FailsWell n key none h = tt
  put_back-FailsWell n key (some edit) h = bind-FailsWell _ h (λ p. well _)

  put_root-FailsWell :
      (doc : Node) (others : Nodes) (o : Option (Edit Any))
      → EditFailsWell o
      → EditFailsWell (put_root_option y doc others o)
  put_root-FailsWell doc others none h = tt
  put_root-FailsWell doc others (some edit) h = bind-FailsWell _ h (λ p. well _)

  if_edit :
      (b : Bool) (o : Option (Edit Any)) → EditFailsWell o → EditFailsWell (if b then o else none)
  if_edit true o h = h
  if_edit false o h = tt

  module _ (edit : Node → Bytes → Edit Any)
      (sound : (n : Node) (ptr : Bytes) → FailsWell (edit n ptr)) where
    below-FailsWell :
        (sub : Node → Bytes → Option (Edit Any)) (n : Node) (key ptr : Bytes) (o : Option Node)
        → ((m : Node) (at : Bytes) → EditFailsWell (sub m at))
        → EditFailsWell (below y sub n key ptr o)
    unfolding below
    below-FailsWell sub n key ptr none h = tt
    below-FailsWell sub n key ptr (some v) h =
        if_edit (is_mapping v) (put_back_option y n key (sub v (ptr ++ b'/' ∷ key)))
          (put_back-FailsWell n key (sub v (ptr ++ b'/' ∷ key)) (h v (ptr ++ b'/' ∷ key)))

    at_keys-FailsWell :
        (keys : List Bytes) (n : Node) (ptr : Bytes) → EditFailsWell (at_keys y keys edit n ptr)
    unfolding at_keys
    at_keys-FailsWell [] n ptr = sound n ptr
    at_keys-FailsWell (key ∷ keys) n ptr =
        below-FailsWell (at_keys y keys edit) n key ptr (lookup key (content n))
          (at_keys-FailsWell keys)

    in_root-FailsWell :
        (root : Node) (o : Option (List Bytes)) → EditFailsWell (in_root y edit root o)
    unfolding in_root
    in_root-FailsWell root none = tt
    in_root-FailsWell root (some keys) = at_keys-FailsWell keys root []

    in_document-FailsWell :
        (doc : Node) (nodes : Nodes) → EditFailsWell (in_document y edit doc nodes)
    unfolding in_document
    in_document-FailsWell doc nil = tt
    in_document-FailsWell doc (cons root others) =
        if_edit (is_document doc && is_mapping root)
          (put_root_option y doc others
            (in_root y edit root (pod_spec_path (identity_of root).kind)))
          (put_root-FailsWell doc others
            (in_root y edit root (pod_spec_path (identity_of root).kind))
            (in_root-FailsWell root (pod_spec_path (identity_of root).kind)))

    on_workload-FailsWell : (doc : Node) → EditFailsWell (on_workload y edit doc)
    unfolding on_workload
    on_workload-FailsWell doc = in_document-FailsWell doc (content doc)

  apply_document-FailsWell :
      (i : ℕ) (doc : Node) (o : Option (Edit Any)) (more : Result ApplyError (Applied y))
      → EditFailsWell o
      → FailsWell more
      → FailsWell (apply_document y i doc o more)
  unfolding apply_document
  apply_document-FailsWell i doc none more h hm = bind-FailsWell _ hm (λ rest. well _)
  apply_document-FailsWell i doc (some edit) more h hm =
      bind-FailsWell _ h (λ edited. bind-FailsWell _ hm (λ rest. well _))

  apply_from-FailsWell :
      (plan : List (Compiled Any)) (i : ℕ) (docs : List Node)
      → All (λ c. EndsInField c.path) plan
      → FailsWell (apply_from y plan i docs)
  unfolding apply_from
  apply_from-FailsWell plan i [] h = well _
  apply_from-FailsWell plan i (doc ∷ docs) h =
      apply_document-FailsWell i doc (on_workload y (run_plan y plan) doc)
        (apply_from y plan (i + 1) docs)
        (on_workload-FailsWell (run_plan y plan) (run_plan-FailsWell y plan h) doc)
        (apply_from-FailsWell plan (i + 1) docs h)

module _ (y : Yaml) where
  open y use {Any}

  rendered-FailsWell :
      (manifest : Bytes) (a : Applied y) (ds : List (DocumentPatch Any))
      → FailsWell (rendered y manifest a ds)
  unfolding rendered
  rendered-FailsWell manifest a [] = well _
  rendered-FailsWell manifest a (d ∷ ds) =
      bind-FailsWell _ (render-FailsWell y manifest a.docs) (λ out. well _)

  finish_apply-FailsWell :
      (manifest : Bytes) (a : Applied y) → FailsWell (finish_apply y manifest a)
  unfolding finish_apply
  finish_apply-FailsWell manifest a =
      if-FailsWell (a.workloads == 0) (expected no_workload tt)
        (rendered-FailsWell manifest a a.documents)

  -- For a plan that compiles, `Apply` returns an error only where the manifest is not valid YAML, has no
  -- workload or a field of another type than the plan wants, or where the encoder fails: no path is
  -- walked to an empty rest, which would be a panic.
  pub apply_errors :
      (manifest : Bytes) (ops : List Operation) (plan : List (Compiled Any)) (e : ApplyError)
      → compile y ops ≡ ok plan
      → apply y manifest ops ≡ err e
      → IsExpected e
  unfolding apply
  apply_errors manifest ops plan e c h = FailsWell-err (apply-FailsWell c) e h
    where
      decoded-FailsWell : (r : Result Bytes (List Node)) → FailsWell (decoded y r)
      decoded-FailsWell (ok docs) = well docs
      decoded-FailsWell (err s) = expected (syntax s) tt

      apply-FailsWell : compile y ops ≡ ok plan → FailsWell (apply y manifest ops)
      apply-FailsWell c = rw c (
          bind-FailsWell _ (decoded-FailsWell (y.decode_stream manifest)) λ docs.
            bind-FailsWell _ (apply_from-FailsWell y plan 0 docs (compile-EndsInField y ops plan c))
              λ a. finish_apply-FailsWell manifest a)
