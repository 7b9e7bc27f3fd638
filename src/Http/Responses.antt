-- ===== src/Http/Responses.antt =====
-- internal/agent/http.go: requests, responses and what each handler answers. A request comes with its
-- media type as `mime.ParseMediaType` reads it. The title of a problem, a text that its status
-- determines, is left out.
use aegis_ebpf.Agent.Ingest.{Invalid, Ingested}
use aegis_ebpf.Agent.Listing.{PatchError, not_found, apply_failed, remediations}
use aegis_ebpf.Agent.Ring.{events}
use aegis_ebpf.Agent.State.{Agent, Remediation}
use aegis_ebpf.Base.{
  ℕ, ◌^◌, ◌*◌, Bool, false, not, ◌&&◌, List, [], ◌∷◌, ◌++◌, Option, none, some, Bytes, codes,
  Result, ok, err, length, ltb, ◌=b◌, if◌then◌else◌,
}
use aegis_ebpf.Events.Types.{is_kind, AuditEvent}
use aegis_ebpf.Events.Validate.{Violation}
use aegis_ebpf.Fixer.Apply.{DocumentPatch, ApplyResult}
use aegis_ebpf.Fixer.Operation.{ApplyError, syntax, no_workload, conflict}
use aegis_ebpf.Go.Text.{contains}
use aegis_ebpf.Http.Query.{Values, get, ListQuery, QueryError, unknown_kind, parse_list_query}

abbrev pub max_batch : ℕ
max_batch = 1000

abbrev pub max_events_body : ℕ
max_events_body = 4 * 2 ^ 20

abbrev pub max_manifest_body : ℕ
max_manifest_body = 2 ^ 20

-- What arrives of a body, and the failure that ends it early.
pub record Incoming : Type 0 where
  pub bytes : Bytes
  pub failure : Option Bytes

-- No media type stands for a `Content-Type` that does not parse.
pub record Request : Type 0 where
  pub media_type : Option Bytes
  pub query : Values
  pub body : Incoming

-- The patterns that `Handler` registers, but the stream and the dashboard, with `{id}` of the path.
pub data Endpoint : Type 0 where
  get_health post_events get_events get_remediations : Endpoint
  get_event get_remediation post_patch : Bytes → Endpoint

pub data BodyError : Type 0 where
  too_large : ℕ → BodyError
  malformed : Bytes → BodyError

-- The texts of `detail`.
pub data Detail : Type 0 where
  want_json want_yaml : Detail
  body_exceeds : ℕ → Detail
  invalid_body : Bytes → Detail
  batch_size : ℕ → Detail
  invalid_events : Detail
  bad_query : QueryError → Detail
  no_event no_remediation : Detail
  not_applied : ApplyError → Detail
  patch_failed : Detail

pub record FieldError : Type 0 where
  pub index : ℕ
  pub message : Violation

pub record Problem : Type 0 where
  pub status : ℕ
  pub detail : Detail
  pub errors : List FieldError

-- The bodies of the responses that succeed; `Any` is the type of the values in a patch.
pub data Answer (Any : Type 0) : Type 0 where
  health_ok : Answer Any
  ingest_result : ℕ → List Bytes → Answer Any
  event_list : List AuditEvent → Answer Any
  one_event : AuditEvent → Answer Any
  remediation_list : List Remediation → Answer Any
  one_remediation : Remediation → Answer Any
  patch_result : Bytes → Bytes → List (DocumentPatch Any) → Answer Any

pub data Content (Any : Type 0) : Type 0 where
  json : Answer Any → Content Any
  problem : Problem → Content Any

pub record Response (Any : Type 0) : Type 0 where
  pub status : ℕ
  pub content : Content Any

-- The agent after a request, its response, and the events that go to the stream and to the responder.
pub record Handled (Any : Type 0) : Type 0 where
  pub agent : Agent
  pub response : Response Any
  pub published : List AuditEvent
  pub to_responder : List AuditEvent

-- One entry for each violation of an event.
abbrev pub entries : ℕ → List Violation → List FieldError
entries i [] = []
entries i (v ∷ vs) = record { index = i; message = v } ∷ entries i vs

-- `fieldErrors`.
unfoldable pub field_errors : List Invalid → List FieldError
field_errors [] = []
field_errors ((i, vs) ∷ es) = entries i vs ++ field_errors es

-- `hasContentType`.
abbrev pub has_content_type : Option Bytes → List Bytes → Bool
has_content_type none want = false
has_content_type (some mt) want = contains want mt

abbrev pub yaml_types : List Bytes
yaml_types = codes "application/yaml" ∷ codes "application/x-yaml" ∷ codes "text/yaml" ∷ []

-- `io.ReadAll` of a body through `http.MaxBytesReader`.
unfoldable pub read_all : ℕ → Incoming → Result BodyError Bytes
read_all limit body =
    if ltb limit (length body.bytes)
    then err (too_large limit)
    else elim body.failure [ none ↦ ok body.bytes | some why ↦ err (malformed why) ]

-- The IDs that `Ingest` returns.
abbrev pub ids_of : List AuditEvent → List Bytes
ids_of [] = []
ids_of (ev ∷ evs) = ev.id ∷ ids_of evs

module _ {Any : Type 0} where
  -- `writeJSON`.
  abbrev pub write_json : ℕ → Answer Any → Response Any
  write_json status v = record { status = status; content = json v }

  -- `writeProblem`.
  abbrev pub write_problem : ℕ → Detail → List FieldError → Response Any
  write_problem status detail errors = record {
    status = status;
    content = problem (record { status = status; detail = detail; errors = errors });
  }

  -- `writeBodyError`.
  abbrev pub write_body_error : BodyError → Response Any
  write_body_error (too_large limit) = write_problem 413 (body_exceeds limit) []
  write_body_error (malformed why) = write_problem 400 (invalid_body why) []

  -- A request that leaves the agent alone.
  abbrev pub answered : Agent → Response Any → Handled Any
  answered a r = record { agent = a; response = r; published = []; to_responder = [] }

  -- `ingestEvents`, on what `Ingest` returns.
  unfoldable pub ingested : Agent → Result (List Invalid) Ingested → Handled Any
  ingested a (err es) = answered a (write_problem 400 invalid_events (field_errors es))
  ingested a (ok r) = record {
    agent = r.agent;
    response = write_json 202 (ingest_result (length (ids_of r.stored)) (ids_of r.stored));
    published = r.stored;
    to_responder = r.to_responder;
  }

  -- `listEvents`, on its kind and what `parseListQuery` returns.
  unfoldable pub list_query_events : Agent → Bytes → Result QueryError ListQuery → Response Any
  list_query_events a kind (err e) = write_problem 400 (bad_query e) []
  list_query_events a kind (ok q) =
      if not (kind =b []) && not (is_kind kind)
      then write_problem 400 (bad_query unknown_kind) []
      else write_json 200 (
          event_list (
            events a (record {
              kind = kind;
              min_severity = q.min_severity;
              container_id = q.container_id;
              limit = q.limit;
            })))

  -- `listEvents`.
  unfoldable pub list_events : Agent → Values → Response Any
  list_events a v = list_query_events a (get (codes "kind") v) (parse_list_query v)

  -- `getEvent`, on what `Event` finds.
  abbrev pub event_response : Option AuditEvent → Response Any
  event_response none = write_problem 404 no_event []
  event_response (some ev) = write_json 200 (one_event ev)

  -- `listRemediations`, on what `parseListQuery` returns.
  unfoldable pub list_query_remediations : Agent → Result QueryError ListQuery → Response Any
  list_query_remediations a (err e) = write_problem 400 (bad_query e) []
  list_query_remediations a (ok q) = write_json 200 (
      remediation_list (
        remediations a (record {
          min_severity = q.min_severity;
          container_id = q.container_id;
          limit = q.limit;
        })))

  -- `listRemediations`.
  unfoldable pub list_remediations : Agent → Values → Response Any
  list_remediations a v = list_query_remediations a (parse_list_query v)

  -- `getRemediation`, on what `Remediation` finds.
  abbrev pub remediation_response : Option Remediation → Response Any
  remediation_response none = write_problem 404 no_remediation []
  remediation_response (some rem) = write_json 200 (one_remediation rem)

  -- The `switch` of `patchManifest`. `index_panic` is a panic of `Apply` instead, and gets no response:
  -- no path of a plan that compiles is empty.
  unfoldable pub patch_response : Bytes → Result PatchError (ApplyResult Any) → Response Any
  patch_response id (err not_found) = write_problem 404 no_remediation []
  patch_response id (err (apply_failed (syntax e))) = write_problem 400 (not_applied (syntax e)) []
  patch_response id (err (apply_failed no_workload)) =
      write_problem 422 (not_applied no_workload) []
  patch_response id (err (apply_failed (conflict ptr line have want))) =
      write_problem 422 (not_applied (conflict ptr line have want)) []
  patch_response id (err (apply_failed _)) = write_problem 500 patch_failed []
  patch_response id (ok res) = write_json 200 (patch_result id res.manifest res.documents)
