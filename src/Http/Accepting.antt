-- ===== src/Http/Accepting.antt =====
-- Which batches `ingestEvents` of internal/agent/http.go accepts.
use aegis_ebpf.Agent.Ingest.Refusals.{ingest_takes_iff}
use aegis_ebpf.Agent.Ingest.{Ingested, ingest}
use aegis_ebpf.Agent.State.{Agent}
use aegis_ebpf.Base.{
  ℕ, ◌≤◌, ◌≡◌, inl, inr, ◌↔◌, false, ◌||◌, List, [], Bytes, ok, arith, length, ltb, ◌==◌, All,
}
use aegis_ebpf.Events.Types.{AuditEvent}
use aegis_ebpf.Events.Validate.{validate}
use aegis_ebpf.Fixer.Yaml.{Yaml}
use aegis_ebpf.Http.Outcomes.{Sends, accepted, handle-Outcome}
use aegis_ebpf.Http.Responses.{max_batch, Request, post_events, ingested}
use aegis_ebpf.Http.{Decoder, take_batch, take_body, ingest_events, handle}

pub size_ok : (n : ℕ) → 1 ≤ n → n ≤ max_batch → (n == 0 || ltb max_batch n) ≡ false
size_ok n lo hi = ground (arith, lo, hi)

module _ (y : Yaml) (decode : Decoder) (new_id : ℕ → Bytes) where
  handle_takes :
      (a : Agent) (req : Request) (batch : List AuditEvent) (r : Ingested)
      → Sends y decode new_id req batch
      → ingest new_id a batch ≡ ok r
      → handle y decode new_id a post_events req ≡ accepted y decode new_id r
  unfolding handle ingest_events take_batch take_body ingested
  handle_takes a req batch r s e =
      rw (s.typed, s.decoded, size_ok (length batch) s.some_events s.few_events, e)

  -- `POST /v1/events` is answered with 202 exactly when its body comes as JSON and decodes to a batch of 1
  -- to 1000 events of which every one validates.
  pub ingest_events_iff :
      (a : Agent) (req : Request)
      → ((handle y decode new_id a post_events req).response.status ≡ 202) ↔ (
          (batch : List AuditEvent) × Sends y decode new_id req batch
          × All (λ ev. validate ev ≡ []) batch)
  ingest_events_iff a req = (
    λ f. elim (handle-Outcome y decode new_id a post_events req) [
      | inl (_, batch, r, s, e, out) ↦ (batch, s, (ingest_takes_iff new_id a batch).0 (r, e))
      | inr (answer, out, ne) ↦ absurd (ne (rw out at f))
    ],
    λ p.
        let (batch, s, valid) = p in
        let (r, e) = (ingest_takes_iff new_id a batch).1 valid in
        rw (handle_takes a req batch r s e),
  )
