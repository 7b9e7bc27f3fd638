-- ===== src/Fixer/Apply.antt =====
-- internal/fixer/fixer.go: `inspect` and `Apply`, on the documents of a stream.
pub mod Documents
pub mod Unreported
pub mod Workloads
pub mod Errors
use aegis_ebpf.Base.{
  ℕ, ◌+◌, Bool, true, false, not, ◌&&◌, List, [], ◌∷◌, ◌++◌, Option, none, some, Bytes, codes,
  Result, ok, err, ◌>>=◌, if◌then◌else◌, ◌==◌, ◌=b◌,
}
use aegis_ebpf.Fixer.Engine.{Edit, run_plan}
use aegis_ebpf.Fixer.Operation.{
  Operation, PatchOp, ApplyError, no_workload, syntax, Compiled, compile,
}
use aegis_ebpf.Fixer.Render.{render}
use aegis_ebpf.Fixer.Yaml.{
  Node, node, Nodes, nil, cons, content, with_content, is_document, is_mapping, lookup, store,
  scalar_text, Yaml,
}

-- The fields of a `DocumentPatch` that `inspect` fills in.
pub record Identity : Type 0 where
  pub api_version : Bytes
  pub kind : Bytes
  pub name : Bytes
  pub namespace : Bytes

pub record DocumentPatch (Any : Type 0) : Type 0 where
  pub index : ℕ
  pub identity : Identity
  pub patch : List (PatchOp Any)

pub record ApplyResult (Any : Type 0) : Type 0 where
  pub manifest : Bytes
  pub documents : List (DocumentPatch Any)

abbrev pub template_spec : List Bytes
template_spec = codes "spec" ∷ codes "template" ∷ codes "spec" ∷ []

-- `podSpecPaths`.
unfoldable pub pod_spec_path : Bytes → Option (List Bytes)
pod_spec_path kind =
    if kind =b codes "Pod"
    then some (codes "spec" ∷ [])
    else if kind =b codes "Deployment"
    then some template_spec
    else if kind =b codes "ReplicaSet"
    then some template_spec
    else if kind =b codes "ReplicationController"
    then some template_spec
    else if kind =b codes "StatefulSet"
    then some template_spec
    else if kind =b codes "DaemonSet"
    then some template_spec
    else if kind =b codes "Job"
    then some template_spec
    else if kind =b codes "CronJob"
    then some (codes "spec" ∷ codes "jobTemplate" ∷ template_spec)
    else none

-- A field of `metadata`, where that is a mapping.
metadata_text : Bytes → Option Node → Bytes
metadata_text key none = []
metadata_text key (some meta) =
    if is_mapping meta then scalar_text (lookup key (content meta)) else []

unfoldable pub identity_of : Node → Identity
unfolding metadata_text
identity_of root = record {
  api_version = scalar_text (lookup (codes "apiVersion") (content root));
  kind = scalar_text (lookup (codes "kind") (content root));
  name = metadata_text (codes "name") (lookup (codes "metadata") (content root));
  namespace = metadata_text (codes "namespace") (lookup (codes "metadata") (content root));
}

module _ (y : Yaml) where
  open y use {Any, decode_stream}

  -- An edit behind a key, put back in its place.
  abbrev pub put_back : Node → Bytes → Edit Any → Edit Any
  put_back n key edit = do (v, ops) ← edit; ok (with_content n (store key v (content n)), ops)

  abbrev pub put_back_option : Node → Bytes → Option (Edit Any) → Option (Edit Any)
  put_back_option n key none = none
  put_back_option n key (some edit) = some (put_back n key edit)

  unfoldable pub below :
      (Node → Bytes → Option (Edit Any)) → Node → Bytes → Bytes → Option Node → Option (Edit Any)
  below sub n key ptr none = none
  below sub n key ptr (some v) =
      if is_mapping v then put_back_option n key (sub v (ptr ++ b'/' ∷ key)) else none

  -- The loop of `inspect` over the keys, with what is done at the node where it ends; `none` where a
  -- key is missing or its value is no mapping.
  unfoldable pub at_keys : List Bytes → (Node → Bytes → Edit Any) → Node → Bytes → Option (Edit Any)
  unfolding below
  at_keys [] edit n ptr = some (edit n ptr)
  at_keys (key ∷ keys) edit n ptr = below (at_keys keys edit) n key ptr (lookup key (content n))

  unfoldable pub in_root :
      (Node → Bytes → Edit Any) → Node → Option (List Bytes) → Option (Edit Any)
  in_root edit root none = none
  in_root edit root (some keys) = at_keys keys edit root []

  abbrev pub put_root : Node → Nodes → Edit Any → Edit Any
  put_root doc others edit = do (root, ops) ← edit; ok (with_content doc (cons root others), ops)

  abbrev pub put_root_option : Node → Nodes → Option (Edit Any) → Option (Edit Any)
  put_root_option doc others none = none
  put_root_option doc others (some edit) = some (put_root doc others edit)

  unfoldable pub in_document : (Node → Bytes → Edit Any) → Node → Nodes → Option (Edit Any)
  in_document edit doc nil = none
  in_document edit doc (cons root others) =
      if is_document doc && is_mapping root
      then put_root_option doc others (in_root edit root (pod_spec_path (identity_of root).kind))
      else none

  -- `inspect`, and an edit of the pod spec that it finds; `none` for a document that is no workload.
  unfoldable pub on_workload : (Node → Bytes → Edit Any) → Node → Option (Edit Any)
  unfolding in_document in_root
  on_workload edit doc = in_document edit doc (content doc)

  abbrev pub identity_in : Nodes → Identity
  identity_in nil = record { api_version = []; kind = []; name = []; namespace = [] }
  identity_in (cons root _) = identity_of root

  -- What the loop of `Apply` has so far: the documents with their flags in `changed`, the list of
  -- patches, and the number of workloads.
  pub record Applied : Type 0 where
    pub docs : List (Node × Bool)
    pub documents : List (DocumentPatch Any)
    pub workloads : ℕ

  abbrev pub is_changed : List (PatchOp Any) → Bool
  is_changed [] = false
  is_changed (_ ∷ _) = true

  -- One document, in front of those behind it.
  abbrev pub add_document : ℕ → Node → Node × List (PatchOp Any) → Applied → Applied
  add_document i doc (doc', ops) rest = record {
    docs = (doc', is_changed ops) ∷ rest.docs;
    documents =
        if is_changed ops
        then record { index = i; identity = identity_in (content doc); patch = ops }
          ∷ rest.documents
        else rest.documents;
    workloads = rest.workloads + 1;
  }

  abbrev pub skip_document : Node → Applied → Applied
  skip_document doc rest = record rest { docs = (doc, false) ∷ rest.docs }

  unfoldable pub apply_document :
      ℕ → Node → Option (Edit Any) → Result ApplyError Applied → Result ApplyError Applied
  apply_document i doc none more = do rest ← more; ok (skip_document doc rest)
  apply_document i doc (some edit) more = do
    edited ← edit
    rest ← more
    ok (add_document i doc edited rest)

  -- The loop of `Apply` over the documents, from the one at `i` on.
  unfoldable pub apply_from : List (Compiled Any) → ℕ → List Node → Result ApplyError Applied
  unfolding apply_document
  apply_from plan i [] = ok (record { docs = []; documents = []; workloads = 0 })
  apply_from plan i (doc ∷ docs) =
      apply_document i doc (on_workload (run_plan y plan) doc) (apply_from plan (i + 1) docs)

  abbrev pub decoded : Result Bytes (List Node) → Result ApplyError (List Node)
  decoded (ok docs) = ok docs
  decoded (err e) = err (syntax e)

  -- The manifest comes back as it is if no document has changed.
  unfoldable pub rendered :
      Bytes → Applied → List (DocumentPatch Any) → Result ApplyError (ApplyResult Any)
  rendered manifest a [] = ok (record { manifest = manifest; documents = [] })
  rendered manifest a (d ∷ ds) = do
    out ← render y manifest a.docs
    ok (record { manifest = out; documents = d ∷ ds })

  unfoldable pub finish_apply : Bytes → Applied → Result ApplyError (ApplyResult Any)
  unfolding rendered
  finish_apply manifest a =
      if a.workloads == 0 then err no_workload else rendered manifest a a.documents

  -- `Apply`.
  unfoldable pub apply : Bytes → List Operation → Result ApplyError (ApplyResult Any)
  unfolding finish_apply
  apply manifest ops = do
    plan ← compile y ops
    docs ← decoded (decode_stream manifest)
    a ← apply_from plan 0 docs
    finish_apply manifest a
