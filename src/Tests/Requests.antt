-- ===== src/Tests/Requests.antt =====
-- The handlers of internal/agent/http.go on small requests.
use aegis_ebpf.Agent.Ingest.Refusals.{violations_at}
use aegis_ebpf.Agent.Ingest.{
  Ingested, ingest, invalid_from, ingest_all, ingest_one, classify, apply_rules, enrich, outcome,
}
use aegis_ebpf.Agent.State.{Config, new}
use aegis_ebpf.Base.{
  ◌=b◌, ◌≤◌, ℕ, ◌≡◌, ◌↔◌, ◌⊎◌, ◌≢◌, refl, List, [], ◌∷◌, some, none, ok, Bytes, codes, length,
  arith, All,
}
use aegis_ebpf.Base.Maps.{bytes_key}
use aegis_ebpf.Events.Types.{severity_high, is_kind, zero_time, payload_kind, AuditEvent}
use aegis_ebpf.Events.Validate.{
  validate, length_in, validate_container, valid_container_id, is_dns_label, label_rest,
  validate_pod, validate_data, validate_open, validate_flags, validate_payload,
}
use aegis_ebpf.Agent.Ring.{store}
use aegis_ebpf.Go.Text.{contains, rune_count}
use aegis_ebpf.Http.Accepting.{ingest_events_iff}
use aegis_ebpf.Http.Errors.{messages_at, handle_refused}
use aegis_ebpf.Http.Limits.{listed, allowance, handle-listed}
use aegis_ebpf.Http.Outcomes.{Sends, accepted, handle-Outcome}
use aegis_ebpf.Http.Query.Accepted.{Accepts, parse_list_query_iff, print_list_query}
use aegis_ebpf.Http.Query.{ListQuery, parse_list_query}
use aegis_ebpf.Http.Responses.{
  ingested, Request, Response, FieldError, post_events, get_events, get_event, get_remediations,
  one_event, ids_of, ingest_result, invalid_events, answered, write_json, write_problem,
}
use aegis_ebpf.Http.Sessions.{start, handle-fetch}
use aegis_ebpf.Http.{Decoder, ingest_events, handle}
use aegis_ebpf.Tests.Agents.{counter_id, counter_id-distinct, small}
use aegis_ebpf.Tests.Audits.{file_event-valid, mismatched_event-invalid}
use aegis_ebpf.Tests.Samples.{file_event, mismatched_event}
use aegis_ebpf.Tests.Trees.{texts}

abbrev high_query : ListQuery
high_query = record { min_severity = severity_high; container_id = []; limit = 20 }

parse_list_query_iff_example :
    (parse_list_query (print_list_query high_query) ≡ ok high_query)
    ↔ Accepts (print_list_query high_query) high_query
parse_list_query_iff_example = parse_list_query_iff (print_list_query high_query) high_query

abbrev pub decode_good : Decoder
decode_good limit body = ok (file_event ∷ [])

-- The second event says that it is of another kind than its payload.
abbrev decode_bad : Decoder
decode_bad limit body = ok (file_event ∷ mismatched_event ∷ [])

abbrev pub post : Request
post = record {
  media_type = some (codes "application/json");
  query = print_list_query high_query;
  body = record { bytes = codes "{}"; failure = none };
}

good-Sends : Sends texts decode_good counter_id post (file_event ∷ [])
unfolding contains ◌=b◌
good-Sends = record {
  typed = refl;
  decoded = refl;
  some_events = omega arith;
  few_events = omega arith;
}

bad-Sends : Sends texts decode_bad counter_id post (file_event ∷ mismatched_event ∷ [])
unfolding contains ◌=b◌
bad-Sends = record {
  typed = refl;
  decoded = refl;
  some_events = omega arith;
  few_events = omega arith;
}

ingest_events_iff_example :
    ((handle texts decode_good counter_id (new small) post_events post).response.status ≡ 202) ↔ (
      (batch : List AuditEvent) × Sends texts decode_good counter_id post batch
      × All (λ ev. validate ev ≡ []) batch)
ingest_events_iff_example = ingest_events_iff texts decode_good counter_id (new small) post

handle_refused_example :
    (errors : List FieldError) × (handle texts decode_bad counter_id (new small) post_events post
      ≡ answered (new small) (write_problem 400 invalid_events errors))
    × ((j : ℕ) → messages_at j errors ≡ violations_at (file_event ∷ mismatched_event ∷ []) j)
handle_refused_example =
    handle_refused texts decode_bad counter_id (new small) post (file_event ∷ mismatched_event ∷ [])
      bad-Sends (λ all. let wrong = all.1.0 in let invalid = mismatched_event-invalid in cc)

handle-Outcome_example :
    ((post_events ≡ post_events)
      × (batch : List AuditEvent) × (r : Ingested) × Sends texts decode_good counter_id post batch
      × (ingest counter_id (new small) batch ≡ ok r)
      × (handle texts decode_good counter_id (new small) post_events post
          ≡ accepted texts decode_good counter_id r))
    ⊎ ((answer : Response Bytes) × (handle texts decode_good counter_id (new small) post_events post
          ≡ answered (new small) answer)
        × (answer.status ≢ 202))
handle-Outcome_example = handle-Outcome texts decode_good counter_id (new small) post_events post

handle-listed_example :
    (listed (handle texts decode_good counter_id (new small) get_events post).response.content
      ≤ allowance (parse_list_query post.query))
    × (listed
          (handle texts decode_good counter_id (new small) get_remediations post).response.content
        ≤ allowance (parse_list_query post.query))
    × (allowance (parse_list_query post.query) ≤ 1000)
handle-listed_example =
    handle-listed texts decode_good counter_id counter_id-distinct (new small) [] post (start small)

abbrev plain_agent : Config
plain_agent = record small { rules = some [] }

good_accepted :
    (handle texts decode_good counter_id (new plain_agent) post_events post).response.status ≡ 202
good_accepted =
    (ingest_events_iff texts decode_good counter_id (new plain_agent) post).1
      (file_event ∷ [], good-Sends, (file_event-valid, tt))

room :
    length (handle texts decode_good counter_id (new plain_agent) post_events post).published
    ≤ length (handle texts decode_good counter_id (new plain_agent) post_events post).agent.ring
unfolding handle ingest_events ingested contains ◌=b◌ ingest invalid_from validate is_kind zero_time
    length_in rune_count validate_container valid_container_id is_dns_label label_rest validate_pod
    validate_data payload_kind validate_open validate_flags validate_payload ingest_all ingest_one
    classify apply_rules enrich new store outcome
room = omega arith

handle-fetch_example :
    let out = handle texts decode_good counter_id (new plain_agent) post_events post in
    (out.response
      ≡ write_json 202 (ingest_result (length (ids_of out.published)) (ids_of out.published)))
    × All
        (λ ev.
          (handle texts decode_good counter_id out.agent (get_event ev.id) post).response
          ≡ write_json 200 (one_event ev))
        out.published
handle-fetch_example =
    handle-fetch texts decode_good counter_id counter_id-distinct (new plain_agent) [] post post
      (start plain_agent) good_accepted room
