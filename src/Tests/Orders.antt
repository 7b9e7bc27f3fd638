-- ===== src/Tests/Orders.antt =====
-- The remediations of two containers, in the two orders of their map.
use mathlib.Core.List.{Permᴰ}
use mathlib.Core.Path.{subst}
use aegis_ebpf.Agent.Ingest.Follows.{onto}
use aegis_ebpf.Agent.Ingest.{
  ingest, invalid_from, ingest_all, ingest_one, classify, apply_rules, enrich, outcome,
}
use aegis_ebpf.Agent.Listing.Unordered.{Entries}
use aegis_ebpf.Agent.Remediations.{record_match, record_at, open_in, opened}
use aegis_ebpf.Agent.Ring.{store}
use aegis_ebpf.Agent.State.{Agent, Config, Remediation, new}
use aegis_ebpf.Base.Maps.{find, insert, bytes_key, pair_same}
use aegis_ebpf.Base.{◌=b◌, ◌≡◌, refl, sym, [], ◌∷◌, some, ok, Bytes, pos, replicate}
use aegis_ebpf.Events.Types.{is_kind, zero_time, payload_kind, rank, Container, AuditEvent}
use aegis_ebpf.Events.Validate.{
  validate, length_in, validate_container, valid_container_id, is_dns_label, label_rest,
  validate_pod, validate_data, validate_open, validate_flags, validate_payload,
}
use aegis_ebpf.Fixer.Rules.{
  plan, rule_system_write, matches_root, matches_escalation, matches_system_write, under_system_dir,
}
use aegis_ebpf.Go.Clean.{clean_rooted}
use aegis_ebpf.Go.Text.{contains, has_prefix, rune_count, position}
use aegis_ebpf.Http.Responses.{post_events, get_remediations, get_remediation, post_patch, ingested}
use aegis_ebpf.Http.Sessions.{Serves, start, served}
use aegis_ebpf.Http.Unordered.{handle-unordered}
use aegis_ebpf.Http.{Decoder, handle, ingest_events}
use aegis_ebpf.Tests.Agents.{counter_id, counter_id-distinct, small}
use aegis_ebpf.Tests.Requests.{post}
use aegis_ebpf.Tests.Samples.{file_event, web_container}
use aegis_ebpf.Tests.Trees.{texts}

abbrev db_container : Container
db_container = record web_container { id = replicate 64 b'b' }

abbrev db_event : AuditEvent
db_event = record file_event { container = some db_container }

abbrev decode_both : Decoder
decode_both limit body = ok (file_event ∷ db_event ∷ [])

abbrev roomy : Config
roomy = record small { max_remediations = pos 5 }

abbrev both : Agent
both = (handle texts decode_both counter_id (new roomy) post_events post).agent

both-Serves :
    Serves texts decode_both counter_id both
      (onto (handle texts decode_both counter_id (new roomy) post_events post).published [])
both-Serves = served (new roomy) [] post_events post (start roomy)

abbrev web_rem : Remediation
web_rem = record {
  id = counter_id 1;
  rule = rule_system_write;
  container = web_container;
  event_id = counter_id 0;
  occurrences = 1;
  first_seen = 5;
  last_seen = 5;
  operations = plan rule_system_write file_event;
}

abbrev db_rem : Remediation
db_rem = record web_rem { id = counter_id 3; container = db_container; event_id = counter_id 2 }

both_opened : both.rems ≡ (counter_id 1, web_rem) ∷ (counter_id 3, db_rem) ∷ []
unfolding handle ingest_events ingested contains ◌=b◌ ingest outcome invalid_from validate is_kind
    zero_time length_in rune_count validate_container valid_container_id is_dns_label label_rest
    validate_pod validate_data payload_kind validate_open validate_flags validate_payload ingest_all
    ingest_one classify apply_rules enrich new store record_match record_at open_in opened find
    insert pair_same plan matches_root matches_escalation matches_system_write under_system_dir
    clean_rooted has_prefix rank position
both_opened = refl

abbrev turned : Entries
turned = (counter_id 3, db_rem) ∷ (counter_id 1, web_rem) ∷ []

abbrev turned_agent : Agent
turned_agent = record both { rems = turned }

both-perm : Permᴰ both.rems turned
both-perm = subst (λ (m : Entries). Permᴰ m turned) (sym both_opened) (Permᴰ.swap refl refl)

handle-unordered_example :
    ((handle texts decode_both counter_id both get_remediations post).response
      ≡ (handle texts decode_both counter_id turned_agent get_remediations post).response)
    × ((id : Bytes)
        → ((handle texts decode_both counter_id both (get_remediation id) post).response
            ≡ (handle texts decode_both counter_id turned_agent (get_remediation id) post).response)
          × ((handle texts decode_both counter_id both (post_patch id) post).response
              ≡ (handle texts decode_both counter_id turned_agent (post_patch id) post).response))
handle-unordered_example =
    handle-unordered texts decode_both counter_id counter_id-distinct both
      (onto (handle texts decode_both counter_id (new roomy) post_events post).published []) turned
      post both-Serves both-perm
