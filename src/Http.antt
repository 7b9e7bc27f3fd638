-- ===== src/Http.antt =====
-- internal/agent/http.go: the handlers of the API, from an agent and a request to the agent after it
-- and the response. The JSON decoder that `ingestEvents` reads its body with, the YAML library and the
-- new IDs are parameters.
pub mod Query
pub mod Responses
pub mod Outcomes
pub mod Accepting
pub mod Sessions
pub mod Limits
pub mod Patching
pub mod Plans
pub mod Unordered
pub mod Errors
use aegis_ebpf.Agent.Ingest.{ingest}
use aegis_ebpf.Agent.Listing.{remediation, patch}
use aegis_ebpf.Agent.Ring.{event}
use aegis_ebpf.Agent.State.{Agent}
use aegis_ebpf.Base.{
  ℕ, not, ◌||◌, List, [], ◌∷◌, Bytes, codes, Result, ok, err, length, ltb, ◌==◌, if◌then◌else◌,
}
use aegis_ebpf.Events.Types.{AuditEvent}
use aegis_ebpf.Fixer.Yaml.{Yaml}
use aegis_ebpf.Http.Responses.{
  max_batch, max_events_body, max_manifest_body, Incoming, Request, Endpoint, get_health,
  post_events, get_events, get_remediations, get_event, get_remediation, post_patch, BodyError,
  want_json, want_yaml, batch_size, health_ok, Response, Handled, has_content_type, yaml_types,
  read_all, write_json, write_problem, write_body_error, answered, ingested, list_events,
  event_response, list_remediations, remediation_response, patch_response,
}

-- A decoder of the body of `POST /v1/events`, behind `http.MaxBytesReader` with the limit given.
abbrev pub Decoder : Type 0
Decoder = ℕ → Incoming → Result BodyError (List AuditEvent)

module _ (y : Yaml) (decode : Decoder) (new_id : ℕ → Bytes) where
  take_batch : Agent → List AuditEvent → Handled y.Any
  unfolding ingested
  take_batch a batch =
      if length batch == 0 || ltb max_batch (length batch)
      then answered a (write_problem 400 (batch_size (length batch)) [])
      else ingested a (ingest new_id a batch)

  take_body : Agent → Result BodyError (List AuditEvent) → Handled y.Any
  unfolding take_batch
  take_body a (err e) = answered a (write_body_error e)
  take_body a (ok batch) = take_batch a batch

  -- `ingestEvents`.
  unfoldable pub ingest_events : Agent → Request → Handled y.Any
  unfolding take_body
  ingest_events a req =
      if not (has_content_type req.media_type (codes "application/json" ∷ []))
      then answered a (write_problem 415 want_json [])
      else take_body a (decode max_events_body req.body)

  patch_body : Agent → Bytes → Result BodyError Bytes → Response y.Any
  patch_body a id (err e) = write_body_error e
  patch_body a id (ok manifest) = patch_response id (patch y a id manifest)

  -- `patchManifest`.
  unfoldable pub patch_manifest : Agent → Bytes → Request → Response y.Any
  unfolding patch_body
  patch_manifest a id req =
      if not (has_content_type req.media_type yaml_types)
      then write_problem 415 want_yaml []
      else patch_body a id (read_all max_manifest_body req.body)

  -- The handler that `Handler` registers for a pattern.
  unfoldable pub handle : Agent → Endpoint → Request → Handled y.Any
  handle a get_health req = answered a (write_json 200 health_ok)
  handle a post_events req = ingest_events a req
  handle a get_events req = answered a (list_events a req.query)
  handle a get_remediations req = answered a (list_remediations a req.query)
  handle a (get_event id) req = answered a (event_response (event a id))
  handle a (get_remediation id) req = answered a (remediation_response (remediation a id))
  handle a (post_patch id) req = answered a (patch_manifest a id req)
