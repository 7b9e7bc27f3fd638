-- ===== src/Http/Outcomes.antt =====
-- What one request does to the agent, by the handlers of internal/agent/http.go.
use aegis_ebpf.Agent.Ingest.{Invalid, Ingested, ingest}
use aegis_ebpf.Agent.State.{Agent, Remediation}
use aegis_ebpf.Base.{
  ℕ, ◌≤◌, ◌≡◌, ◌≢◌, ◌⊎◌, inl, inr, refl, true, not, ◌||◌, ◌&&◌, ◌=b◌, Option, none, some, List, [],
  ◌∷◌, Bytes, codes, Result, ok, err, arith, length, ltb, ◌==◌, Bool-cases,
}
use aegis_ebpf.Events.Types.{is_kind, AuditEvent}
use aegis_ebpf.Fixer.Yaml.{Yaml}
use aegis_ebpf.Http.Responses.{
  max_batch, max_events_body, Request, Endpoint, get_health, post_events, get_events,
  get_remediations, get_event, get_remediation, post_patch, BodyError, ingest_result,
  event_response, list_query_events, list_events, list_query_remediations, list_remediations,
  remediation_response, patch_response, max_manifest_body, yaml_types, read_all, too_large,
  malformed, Response, Handled, has_content_type, ids_of, write_json, write_body_error, answered,
  ingested,
}
use aegis_ebpf.Http.{
  Decoder, take_batch, take_body, ingest_events, patch_body, patch_manifest, handle,
}
use aegis_ebpf.Http.Query.{Values, get, ListQuery, QueryError, parse_list_query}
use aegis_ebpf.Agent.Listing.{PatchError, remediation, patch}
use aegis_ebpf.Agent.Ring.{event}
use aegis_ebpf.Fixer.Apply.{ApplyResult}

-- Any response but that to a batch taken.
abbrev NotAccepted : {Any : Type 0} → Response Any → Type 0
NotAccepted answer = answer.status ≢ 202

module _ (Any : Type 0) where
  write_body_error-status : (e : BodyError) → NotAccepted (write_body_error {Any = Any} e)
  write_body_error-status (too_large _) f = absurd (omega (arith, f))
  write_body_error-status (malformed _) f = absurd (omega (arith, f))

  event_response-status : (o : Option AuditEvent) → NotAccepted (event_response {Any = Any} o)
  event_response-status none f = absurd (omega (arith, f))
  event_response-status (some ev) f = absurd (omega (arith, f))

  remediation_response-status :
      (o : Option Remediation) → NotAccepted (remediation_response {Any = Any} o)
  remediation_response-status none f = absurd (omega (arith, f))
  remediation_response-status (some ev) f = absurd (omega (arith, f))

  list_query_events-status :
      (a : Agent) (kind : Bytes) (o : Result QueryError ListQuery)
      → NotAccepted (list_query_events {Any = Any} a kind o)
  unfolding list_query_events
  list_query_events-status a kind (err e) f = absurd (omega (arith, f))
  list_query_events-status a kind (ok q) f =
      elim (Bool-cases (not (kind =b []) && not (is_kind kind))) [
        | inl e ↦ absurd (omega (arith, rw e at f))
        | inr e ↦ absurd (omega (arith, rw e at f))
      ]

  list_events-status : (a : Agent) (v : Values) → NotAccepted (list_events {Any = Any} a v)
  unfolding list_events
  list_events-status a v = list_query_events-status a (get (codes "kind") v) (parse_list_query v)

  list_query_remediations-status :
      (a : Agent) (o : Result QueryError ListQuery)
      → NotAccepted (list_query_remediations {Any = Any} a o)
  unfolding list_query_remediations
  list_query_remediations-status a (err e) f = absurd (omega (arith, f))
  list_query_remediations-status a (ok q) f = absurd (omega (arith, f))

  list_remediations-status :
      (a : Agent) (v : Values) → NotAccepted (list_remediations {Any = Any} a v)
  unfolding list_remediations
  list_remediations-status a v = list_query_remediations-status a (parse_list_query v)

  patch_response-status :
      (id : Bytes) (o : Result PatchError (ApplyResult Any)) → NotAccepted (patch_response id o)
  unfolding patch_response
  patch_response-status id o f = ground (arith, f)

module _ (y : Yaml) (decode : Decoder) (new_id : ℕ → Bytes) where
  -- A batch that comes in a body of JSON, and has one event at least and as many as allowed at most.
  pub record Sends (req : Request) (batch : List AuditEvent) : Type 0 where
    pub typed : has_content_type req.media_type (codes "application/json" ∷ []) ≡ true
    pub decoded : decode max_events_body req.body ≡ ok batch
    pub some_events : 1 ≤ length batch
    pub few_events : length batch ≤ max_batch

  -- The agent has taken the batch, with the response and the events published.
  abbrev pub accepted : Ingested → Handled y.Any
  accepted r = record {
    agent = r.agent;
    response = write_json 202 (ingest_result (length (ids_of r.stored)) (ids_of r.stored));
    published = r.stored;
    to_responder = r.to_responder;
  }

  -- What a request does to an agent: a batch is taken, or nothing changes.
  abbrev pub Outcome : Agent → Request → Handled y.Any → Type 0
  Outcome a req out =
      ((batch : List AuditEvent) × (r : Ingested) × Sends req batch
        × (ingest new_id a batch ≡ ok r)
        × (out ≡ accepted r))
      ⊎ ((answer : Response y.Any) × (out ≡ answered a answer) × (answer.status ≢ 202))

  ingested-Outcome :
      (a : Agent) (req : Request) (batch : List AuditEvent) (o : Result (List Invalid) Ingested)
      → Sends req batch
      → ingest new_id a batch ≡ o
      → Outcome a req (ingested a o)
  unfolding ingested
  ingested-Outcome a req batch (err es) s e = inr (_, refl, λ f. absurd (omega (arith, f)))
  ingested-Outcome a req batch (ok r) s e = inl (batch, r, s, e, refl)

  take_batch-Outcome :
      (a : Agent) (req : Request) (batch : List AuditEvent)
      → has_content_type req.media_type (codes "application/json" ∷ []) ≡ true
      → decode max_events_body req.body ≡ ok batch
      → Outcome a req (take_batch y decode new_id a batch)
  unfolding take_batch
  take_batch-Outcome a req batch t d =
      elim (Bool-cases (length batch == 0 || ltb max_batch (length batch))) [
        | inl e ↦ rw e (inr (_, refl, λ f. absurd (omega (arith, f))))
        | inr e ↦ rw e (
            ingested-Outcome a req batch (ingest new_id a batch)
              (record {
                typed = t;
                decoded = d;
                some_events = ground (arith, e);
                few_events = ground (arith, e);
              })
              refl)
      ]

  take_body-Outcome :
      (a : Agent) (req : Request) (o : Result BodyError (List AuditEvent))
      → has_content_type req.media_type (codes "application/json" ∷ []) ≡ true
      → decode max_events_body req.body ≡ o
      → Outcome a req (take_body y decode new_id a o)
  unfolding take_body
  take_body-Outcome a req (err e) t d =
      inr (write_body_error e, refl, write_body_error-status y.Any e)
  take_body-Outcome a req (ok batch) t d = take_batch-Outcome a req batch t d

  ingest_events-Outcome :
      (a : Agent) (req : Request) → Outcome a req (ingest_events y decode new_id a req)
  unfolding ingest_events
  ingest_events-Outcome a req =
      elim (Bool-cases (has_content_type req.media_type (codes "application/json" ∷ []))) [
        | inl e ↦ rw e (take_body-Outcome a req (decode max_events_body req.body) e refl)
        | inr e ↦ rw e (inr (_, refl, λ f. absurd (omega (arith, f))))
      ]

  patch_body-status :
      (a : Agent) (id : Bytes) (o : Result BodyError Bytes)
      → NotAccepted (patch_body y decode new_id a id o)
  unfolding patch_body
  patch_body-status a id (err e) = write_body_error-status y.Any e
  patch_body-status a id (ok manifest) = patch_response-status y.Any id (patch y a id manifest)

  patch_manifest-status :
      (a : Agent) (id : Bytes) (req : Request)
      → NotAccepted (patch_manifest y decode new_id a id req)
  unfolding patch_manifest
  patch_manifest-status a id req f =
      elim (Bool-cases (has_content_type req.media_type yaml_types)) [
        | inl e ↦ patch_body-status a id (read_all max_manifest_body req.body) (rw e at f)
        | inr e ↦ absurd (omega (arith, rw e at f))
      ]

  -- A request to any endpoint either is a batch sent to the endpoint for events that `Ingest` takes, with
  -- the agent, the events and the IDs of that call in what comes out; or it leaves the agent as it is,
  -- publishes nothing, and is not answered with 202.
  pub handle-Outcome :
      (a : Agent) (e : Endpoint) (req : Request)
      → ((e ≡ post_events)
          × (batch : List AuditEvent) × (r : Ingested) × Sends req batch
          × (ingest new_id a batch ≡ ok r)
          × (handle y decode new_id a e req ≡ accepted r))
        ⊎ ((answer : Response y.Any) × (handle y decode new_id a e req ≡ answered a answer)
            × (answer.status ≢ 202))
  unfolding handle
  handle-Outcome a get_health req = inr (_, refl, λ f. absurd (omega (arith, f)))
  handle-Outcome a get_events req = inr (_, refl, list_events-status y.Any a req.query)
  handle-Outcome a get_remediations req = inr (_, refl, list_remediations-status y.Any a req.query)
  handle-Outcome a (get_event id) req = inr (_, refl, event_response-status y.Any (event a id))
  handle-Outcome a (get_remediation id) req =
      inr (_, refl, remediation_response-status y.Any (remediation a id))
  handle-Outcome a (post_patch id) req = inr (_, refl, patch_manifest-status a id req)
  handle-Outcome a post_events req = elim (ingest_events-Outcome a req) [
    | inl (batch, r, s, e, out) ↦ inl (refl, batch, r, s, e, out)
    | inr (answer, out, ne) ↦ inr (answer, out, ne)
  ]
