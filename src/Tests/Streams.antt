-- ===== src/Tests/Streams.antt =====
-- `Apply` of internal/fixer/fixer.go on a stream of two documents, of which one is a workload.
use aegis_ebpf.Base.{
  ◌=b◌, Bool, ◌-◌, ℕ, ◌≡◌, refl, true, false, List, [], ◌∷◌, some, ok, Bytes, codes, map,
}
use aegis_ebpf.Fixer.Apply.Documents.{Follows, Unchanged, changed_from, apply_from_lem}
use aegis_ebpf.Fixer.Apply.{
  Applied, DocumentPatch, apply_from, on_workload, in_document, in_root, below, at_keys,
  identity_of, pod_spec_path, apply_document,
}
use aegis_ebpf.Go.Decimal.{decimal}
use aegis_ebpf.Fixer.Engine.Silent.{run_plan-silent}
use aegis_ebpf.Fixer.Engine.{
  run_plan, walk, step, through_list, walk_items, selects, edit, holds, put, escape,
}
use aegis_ebpf.Fixer.Operation.{patch_add, scalar}
use aegis_ebpf.Fixer.Render.Pieces.{pieces, LaterBegin}
use aegis_ebpf.Fixer.Render.Verbatim.{Rendered, render_copies}
use aegis_ebpf.Fixer.Render.{
  split_lines, join_lines, starts_from, later_docs, render, is_marker, render_parts,
  render_document, encode,
}
use aegis_ebpf.Fixer.Yaml.{
  Node, node, attrs, Nodes, nil, cons, document_node, plain, key_node, lookup, names_key, is_null,
  store, scalar_text, snoc,
}
use aegis_ebpf.Tests.Trees.{texts, mapping, set_image, before, after}

nothing_to_do : run_plan texts (set_image ∷ []) after (codes "/spec") ≡ ok (after, [])
unfolding run_plan walk step through_list lookup names_key ◌=b◌ is_null walk_items selects edit
    holds store
nothing_to_do = refl

run_plan-silent_example : after ≡ after
run_plan-silent_example =
    run_plan-silent texts (set_image ∷ []) after (codes "/spec") after nothing_to_do

abbrev document_at : ℕ → Nodes → Node
document_at line entries =
    node document_node (record (plain [] []) { line = line }) (cons (mapping entries) nil)

abbrev pub pod_with : Node → Node
pod_with spec = document_at 2 (
    cons (key_node (codes "kind"))
      (cons (key_node (codes "Pod")) (cons (key_node (codes "spec")) (cons spec nil))))

abbrev pub config_map : Node
config_map =
    document_at 1 (cons (key_node (codes "kind")) (cons (key_node (codes "ConfigMap")) nil))

abbrev pub stream : List Node
stream = config_map ∷ pod_with before ∷ []

abbrev pub applied : Applied texts
applied = record {
  docs = (config_map, false) ∷ (pod_with after, true) ∷ [];
  documents =
      record {
        index = 1;
        identity = record { api_version = []; kind = codes "Pod"; name = []; namespace = [] };
        patch =
            record {
              op = patch_add;
              path = codes "/spec/containers/0/image";
              value = scalar (codes "nginx");
            }
            ∷ [];
      }
      ∷ [];
  workloads = 1;
}

pub stream-applied : apply_from texts (set_image ∷ []) 0 stream ≡ ok applied
unfolding apply_from on_workload in_document in_root below at_keys identity_of pod_spec_path
    scalar_text apply_document put snoc escape decimal run_plan walk step through_list lookup
    names_key ◌=b◌ is_null walk_items selects edit holds store
stream-applied = refl

apply_from_lem_example :
    Follows texts (set_image ∷ []) 0 stream applied.docs applied.documents applied.workloads
    × Unchanged stream applied.docs
    × (map (λ (d : DocumentPatch Bytes). d.index) applied.documents ≡ changed_from 0 applied.docs)
apply_from_lem_example = apply_from_lem texts (set_image ∷ []) 0 stream applied stream-applied

abbrev pub source : Bytes
source = codes "kind: ConfigMap\n---\nkind: Pod\n"

abbrev output : Bytes
output = codes "kind: ConfigMap\n---\nencoded\n"

pub starts_found : starts_from (split_lines source) 0 (later_docs applied.docs) ≡ some (1 ∷ [])
unfolding starts_from split_lines is_marker
starts_found = refl

rendered : render texts source applied.docs ≡ ok output
unfolding render starts_from split_lines is_marker render_parts render_document encode
rendered = refl

render_copies_example :
    (1 ∷ [] ≡ map (λ (p : Node × Bool). (attrs p.0).line - 1) ((pod_with after, true) ∷ []))
    × (join_lines (map join_lines (pieces (split_lines source) 0 (1 ∷ []))) ≡ source)
    × LaterBegin (pieces (split_lines source) 0 (1 ∷ []))
    × Rendered texts (pieces (split_lines source) 0 (1 ∷ [])) applied.docs output
render_copies_example =
    render_copies texts source config_map false ((pod_with after, true) ∷ []) (1 ∷ []) output
      starts_found rendered
