-- ===== src/Fixer/Apply/Documents.antt =====
-- `Apply` of internal/fixer/fixer.go on a stream: the documents that it lists are those that it
-- changes.
use mathlib.Core.Path.{subst}
use aegis_ebpf.Base.{
  ℕ, ◌+◌, ◌≡◌, ◌⊎◌, inl, inr, refl, sym, ◌∙◌, ap, Bool, true, false, List, [], ◌∷◌, Option, none,
  some, Result, ok, >>=-ok, map,
}
use aegis_ebpf.Fixer.Apply.Unreported.{SilentAt, on_workload-SilentAt}
use aegis_ebpf.Fixer.Apply.Workloads.{IsWorkload, on_workload_sound, on_workload_complete}
use aegis_ebpf.Fixer.Apply.{
  DocumentPatch, Applied, on_workload, identity_in, add_document, skip_document, apply_document,
  apply_from,
}
use aegis_ebpf.Fixer.Engine.{Edit, run_plan}
use aegis_ebpf.Fixer.Operation.{PatchOp, ApplyError, Compiled}
use aegis_ebpf.Fixer.Yaml.{Node, content, Yaml}

-- The numbers, from `i` on, of the documents whose flag is set.
abbrev pub changed_from {ℓ} : {A : Type ℓ} → ℕ → List (A × Bool) → List ℕ
changed_from i [] = []
changed_from i ((_, true) ∷ docs) = i ∷ changed_from (i + 1) docs
changed_from i ((_, false) ∷ docs) = changed_from (i + 1) docs

-- Each document whose flag is not set is as it was.
abbrev pub Unchanged : List Node → List (Node × Bool) → Type 0
Unchanged [] [] = Unit
Unchanged [] (_ ∷ _) = ⊥
Unchanged (_ ∷ _) [] = ⊥
Unchanged (doc ∷ docs) ((doc', changed) ∷ rest) =
    ((changed ≡ true) ⊎ (doc' ≡ doc)) × Unchanged docs rest

module _ (y : Yaml) where
  open y use {Any}

  -- What a plan is to make of the documents from the one at `i` on: their nodes and flags, the list of
  -- patches, and the number of workloads. A document that is no workload, and a workload that the plan has
  -- no edit for, are passed on and not listed; a workload that the plan edits takes its new node, and is
  -- listed under its number with its identity and the edits.
  pub data Follows (plan : List (Compiled Any))
      : ℕ → List Node → List (Node × Bool) → List (DocumentPatch Any) → ℕ → Type 0 where
    none_left : (i : ℕ) → Follows plan i [] [] [] 0
    no_workload :
        (i : ℕ) (doc : Node) (docs : List Node) (out : List (Node × Bool))
        (patches : List (DocumentPatch Any)) (workloads : ℕ)
        → (IsWorkload doc → ⊥)
        → Follows plan (i + 1) docs out patches workloads
        → Follows plan i (doc ∷ docs) ((doc, false) ∷ out) patches workloads
    left_alone :
        (i : ℕ) (doc : Node) (docs : List Node) (out : List (Node × Bool))
        (patches : List (DocumentPatch Any)) (workloads : ℕ)
        → IsWorkload doc
        → on_workload y (run_plan y plan) doc ≡ some (ok (doc, []))
        → Follows plan (i + 1) docs out patches workloads
        → Follows plan i (doc ∷ docs) ((doc, false) ∷ out) patches (workloads + 1)
    edited_by :
        (i : ℕ) (doc doc' : Node) (op : PatchOp Any) (ops : List (PatchOp Any)) (docs : List Node)
        (out : List (Node × Bool)) (patches : List (DocumentPatch Any)) (workloads : ℕ)
        → IsWorkload doc
        → on_workload y (run_plan y plan) doc ≡ some (ok (doc', op ∷ ops))
        → Follows plan (i + 1) docs out patches workloads
        → Follows plan i
            (doc ∷ docs)
            ((doc', true) ∷ out)
            (record { index = i; identity = identity_in y (content doc); patch = op ∷ ops }
              ∷ patches)
            (workloads + 1)

  -- What the loop has to keep, for the documents from the one at `i` on.
  record Tells (plan : List (Compiled Any)) (i : ℕ) (docs : List Node) (a : Applied y)
      : Type 0 where
    follows : Follows plan i docs a.docs a.documents a.workloads
    unchanged : Unchanged docs a.docs
    listed : map (λ (d : DocumentPatch Any). d.index) a.documents ≡ changed_from i a.docs

  add_document-Tells :
      (plan : List (Compiled Any)) (i : ℕ) (doc doc' : Node) (ops : List (PatchOp Any))
      (docs : List Node) (rest : Applied y)
      → on_workload y (run_plan y plan) doc ≡ some (ok (doc', ops))
      → (ops ≡ [] → doc' ≡ doc)
      → Tells plan (i + 1) docs rest
      → Tells plan i (doc ∷ docs) (add_document y i doc (doc', ops) rest)
  add_document-Tells plan i doc doc' [] docs rest walked same t =
      subst (λ n. Tells plan i (doc ∷ docs) (add_document y i doc (n, []) rest)) (sym (same refl))
        (record {
          follows =
              left_alone i doc docs rest.docs rest.documents rest.workloads
                (on_workload_sound y (run_plan y plan) doc _ walked)
                (subst (λ n. on_workload y (run_plan y plan) doc ≡ some (ok (n, []))) (same refl)
                  walked)
                t.follows;
          unchanged = (inr refl, t.unchanged);
          listed = t.listed;
        })
  add_document-Tells plan i doc doc' (op ∷ ops) docs rest walked same t = record {
    follows =
        edited_by i doc doc' op ops docs rest.docs rest.documents rest.workloads
          (on_workload_sound y (run_plan y plan) doc _ walked) walked t.follows;
    unchanged = (inl refl, t.unchanged);
    listed = ap (λ l. i ∷ l) t.listed;
  }

  apply_document-Tells :
      (plan : List (Compiled Any)) (i : ℕ) (doc : Node) (docs : List Node) (o : Option (Edit Any))
      (more : Result ApplyError (Applied y)) (a : Applied y)
      → on_workload y (run_plan y plan) doc ≡ o
      → SilentAt y doc o
      → ((rest : Applied y) → more ≡ ok rest → Tells plan (i + 1) docs rest)
      → apply_document y i doc o more ≡ ok a
      → Tells plan i (doc ∷ docs) a
  unfolding apply_document
  apply_document-Tells plan i doc docs none more a w s later e =
      let (rest, m, done) = >>=-ok more _ e in
      let t = later rest m in
      let same : skip_document y doc rest ≡ a = cc in
      subst (Tells plan i (doc ∷ docs)) same (record {
        follows =
            no_workload i doc docs rest.docs rest.documents rest.workloads
              (on_workload_complete y (run_plan y plan) doc w) t.follows;
        unchanged = (inr refl, t.unchanged);
        listed = t.listed;
      })
  apply_document-Tells plan i doc docs (some edit) more a w s later e =
      let ((doc', ops), walked, e') = >>=-ok edit _ e in
      let (rest, m, done) = >>=-ok more _ e' in
      let same : add_document y i doc (doc', ops) rest ≡ a = cc in
      subst (Tells plan i (doc ∷ docs)) same (
        add_document-Tells plan i doc doc' ops docs rest (w ∙ ap some walked)
          (λ none_left. s doc' (subst (λ x. edit ≡ ok (doc', x)) none_left walked)) (later rest m))

  apply_from-Tells :
      (plan : List (Compiled Any)) (i : ℕ) (docs : List Node) (a : Applied y)
      → apply_from y plan i docs ≡ ok a
      → Tells plan i docs a
  unfolding apply_from
  apply_from-Tells plan i [] a e =
      let done : record { docs = []; documents = []; workloads = 0 } ≡ a = cc in
      subst (Tells plan i []) done (record { follows = none_left i; unchanged = tt; listed = refl })
  apply_from-Tells plan i (doc ∷ docs) a e =
      apply_document-Tells plan i doc docs (on_workload y (run_plan y plan) doc)
        (apply_from y plan (i + 1) docs) a refl (on_workload-SilentAt y plan doc)
        (λ rest. apply_from-Tells plan (i + 1) docs rest) e

  -- Where the loop of `Apply` ends without an error: it changes, flags and lists exactly the workloads that
  -- the plan makes an edit in, in order, each under its number with its identity and those edits, and counts
  -- the workloads, the documents of eight kinds whose keys lead through mappings to a pod spec. Every other
  -- document is as the decoder gave it, not flagged and not listed.
  pub apply_from_lem :
      (plan : List (Compiled Any)) (i : ℕ) (docs : List Node) (a : Applied y)
      → apply_from y plan i docs ≡ ok a
      → Follows plan i docs a.docs a.documents a.workloads
        × Unchanged docs a.docs
        × (map (λ (d : DocumentPatch Any). d.index) a.documents ≡ changed_from i a.docs)
  apply_from_lem plan i docs a e =
      let t = apply_from-Tells plan i docs a e in (t.follows, t.unchanged, t.listed)
