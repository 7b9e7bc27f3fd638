-- ===== src/Tests/Patches.antt =====
-- `patchManifest` of internal/agent/http.go with an encoder that fails.
use aegis_ebpf.Agent.State.{Remediation}
use aegis_ebpf.Base.{◌=b◌, ◌≡◌, refl, [], ◌∷◌, none, ok, err, codes}
use aegis_ebpf.Base.Maps.{bytes_key}
use aegis_ebpf.Fixer.Apply.Errors.{apply_errors}
use aegis_ebpf.Fixer.Apply.{
  apply_from, on_workload, in_document, in_root, below, at_keys, identity_of, pod_spec_path,
  apply_document, finish_apply, apply,
}
use aegis_ebpf.Fixer.Engine.Errors.{IsExpected}
use aegis_ebpf.Fixer.Engine.{
  run_plan, walk, step, through_list, walk_items, selects, edit, holds, put, escape,
}
use aegis_ebpf.Fixer.Operation.{op_set, Operation, encode_failed, compile, compile_one}
use aegis_ebpf.Fixer.Path.{parse_path, segments, segment, name, is_name_byte, bracketed, selector}
use aegis_ebpf.Fixer.Render.{
  split_lines, starts_from, render, is_marker, render_parts, render_document, encode,
}
use aegis_ebpf.Fixer.Yaml.{Yaml, text, lookup, names_key, is_null, store, scalar_text, snoc}
use aegis_ebpf.Go.Decimal.{decimal, is_digit}
use aegis_ebpf.Tests.Agents.{later_rem}
use aegis_ebpf.Tests.Streams.{stream, source}
use aegis_ebpf.Tests.Trees.{texts, set_image}

-- A library that reads the two documents of the stream, and writes none.
abbrev pub no_encoder : Yaml
no_encoder = record texts {
  decode_stream = λ s. ok stream;
  encode_document = λ indent compact n. none;
}

abbrev image_op : Operation
image_op = record {
  op = op_set;
  path = codes "containers[name=web].image";
  value = text (codes "nginx");
}

abbrev image_rem : Remediation
image_rem = record later_rem { operations = image_op ∷ [] }

image_compiles : compile no_encoder image_rem.operations ≡ ok (set_image ∷ [])
unfolding compile compile_one parse_path segments segment name is_name_byte is_digit bracketed
    selector
image_compiles = refl

image_fails : apply no_encoder source image_rem.operations ≡ err encode_failed
unfolding apply compile compile_one parse_path segments segment name is_name_byte is_digit bracketed
    selector apply_from on_workload in_document in_root below at_keys identity_of pod_spec_path
    scalar_text apply_document put snoc escape decimal run_plan walk step through_list lookup
    names_key ◌=b◌ is_null walk_items selects edit holds store finish_apply render starts_from
    split_lines is_marker render_parts render_document encode
image_fails = refl

apply_errors_example : IsExpected encode_failed
apply_errors_example =
    apply_errors no_encoder source image_rem.operations (set_image ∷ []) encode_failed
      image_compiles image_fails
