-- ===== src/Tests/Sessions.antt =====
-- Requests to internal/agent/http.go one after another: an event opens a remediation, and a manifest is
-- patched with it, by a library that reads and does not write.
use aegis_ebpf.Agent.Ingest.{
  ingest, invalid_from, ingest_all, ingest_one, classify, apply_rules, enrich, outcome,
}
use aegis_ebpf.Agent.Ingest.Follows.{onto}
use aegis_ebpf.Agent.Listing.{remediation, patch}
use aegis_ebpf.Agent.Remediations.{record_match, record_at, open_in, opened}
use aegis_ebpf.Agent.Ring.{store}
use aegis_ebpf.Agent.State.{Agent, Remediation, new}
use aegis_ebpf.Base.{◌=b◌, ◌≡◌, refl, true, false, [], some, none, err, codes, pos, negsuc}
use aegis_ebpf.Base.Maps.{find, insert, bytes_key, pair_same}
use aegis_ebpf.Events.Types.{is_kind, zero_time, payload_kind, rank}
use aegis_ebpf.Events.Validate.{
  validate, length_in, validate_container, valid_container_id, is_dns_label, label_rest,
  validate_pod, validate_data, validate_open, validate_flags, validate_payload,
}
use aegis_ebpf.Fixer.Apply.{
  apply_from, on_workload, in_document, in_root, below, at_keys, identity_of, pod_spec_path,
  apply_document, finish_apply, apply,
}
use aegis_ebpf.Fixer.Engine.{
  run_plan, walk, step, through_key, through_list, walk_items, selects, edit, holds, put, escape,
}
use aegis_ebpf.Fixer.Operation.{encode_failed, compile, compile_one}
use aegis_ebpf.Fixer.Path.{parse_path, segments, segment, name, is_name_byte, bracketed, selector}
use aegis_ebpf.Fixer.Render.{
  split_lines, starts_from, render, is_marker, render_parts, render_document, encode,
}
use aegis_ebpf.Fixer.Rules.Compiled.{EncodesScalars}
use aegis_ebpf.Fixer.Rules.{
  plan, matches_root, matches_escalation, matches_system_write, under_system_dir, default_rules,
}
use aegis_ebpf.Fixer.Yaml.{
  boolean, integer, text, other, lookup, names_key, is_null, scalar_text, snoc,
}
use aegis_ebpf.Go.Clean.{clean_rooted}
use aegis_ebpf.Go.Decimal.{decimal, is_digit}
use aegis_ebpf.Go.Text.{contains, has_prefix, rune_count, position}
use aegis_ebpf.Http.Plans.{handle-post_patch}
use aegis_ebpf.Http.Responses.{Request, post_events, post_patch, read_all, patch_response, ingested}
use aegis_ebpf.Http.Sessions.{Serves, start, served}
use aegis_ebpf.Http.{patch_manifest, handle, ingest_events}
use aegis_ebpf.Tests.Agents.{counter_id, small}
use aegis_ebpf.Tests.Patches.{no_encoder}
use aegis_ebpf.Tests.Requests.{decode_good, post}
use aegis_ebpf.Tests.Streams.{source}

no_encoder-EncodesScalars : EncodesScalars no_encoder
no_encoder-EncodesScalars (boolean true) s = (_, _, refl, refl)
no_encoder-EncodesScalars (boolean false) s = (_, _, refl, refl)
no_encoder-EncodesScalars (integer (pos n)) s = (_, _, refl, refl)
no_encoder-EncodesScalars (integer (negsuc n)) s = (_, _, refl, refl)
no_encoder-EncodesScalars (text s) h = (_, _, refl, refl)
no_encoder-EncodesScalars other s = absurd (cc)

abbrev post_yaml : Request
post_yaml = record {
  media_type = some (codes "text/yaml");
  query = [];
  body = record { bytes = source; failure = none };
}

-- The agent after the event.
abbrev warned : Agent
warned = (handle no_encoder decode_good counter_id (new small) post_events post).agent

warned-default : warned.rules ≡ default_rules
unfolding handle ingest_events ingested contains ◌=b◌ ingest outcome invalid_from validate is_kind
    zero_time length_in rune_count validate_container valid_container_id is_dns_label label_rest
    validate_pod validate_data payload_kind validate_open validate_flags validate_payload ingest_all
    ingest_one classify apply_rules enrich new store record_match record_at open_in opened find
    insert pair_same plan matches_root matches_escalation matches_system_write under_system_dir
    clean_rooted has_prefix rank position
warned-default = refl

warned_500 :
    (handle no_encoder decode_good counter_id warned
      (post_patch (counter_id 1))
      post_yaml).response.status
    ≡ 500
unfolding handle ingest_events ingested contains ◌=b◌ ingest outcome invalid_from validate is_kind
    zero_time length_in rune_count validate_container valid_container_id is_dns_label label_rest
    validate_pod validate_data payload_kind validate_open validate_flags validate_payload ingest_all
    ingest_one classify apply_rules enrich new store record_match record_at open_in opened find
    insert pair_same plan matches_root matches_escalation matches_system_write under_system_dir
    clean_rooted has_prefix rank position patch_manifest patch read_all patch_response apply compile
    compile_one parse_path segments segment name is_name_byte is_digit bracketed selector apply_from
    on_workload in_document in_root below at_keys identity_of pod_spec_path scalar_text
    apply_document put snoc escape decimal run_plan walk step through_list lookup names_key is_null
    walk_items selects edit holds finish_apply render starts_from split_lines is_marker render_parts
    render_document encode through_key
warned_500 = refl

warned-Serves :
    Serves no_encoder decode_good counter_id warned
      (onto (handle no_encoder decode_good counter_id (new small) post_events post).published [])
warned-Serves = served (new small) [] post_events post (start small)

handle-post_patch_example :
    (rem : Remediation) × (remediation warned (counter_id 1) ≡ some rem)
    × (apply no_encoder source rem.operations ≡ err encode_failed)
handle-post_patch_example =
    handle-post_patch no_encoder decode_good counter_id warned
      (onto (handle no_encoder decode_good counter_id (new small) post_events post).published [])
      (counter_id 1) post_yaml no_encoder-EncodesScalars warned-Serves warned-default warned_500
