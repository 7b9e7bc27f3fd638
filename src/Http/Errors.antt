-- ===== src/Http/Errors.antt =====
-- What the responses of internal/agent/http.go say of errors.
use aegis_ebpf.Agent.Ingest.Refusals.{violations_at, outcome-reported, ingest_takes_iff}
use aegis_ebpf.Agent.Ingest.{Invalid, Ingested, add_invalid, invalid_from, ingest}
use aegis_ebpf.Agent.State.{Agent}
use aegis_ebpf.Base.{
  ℕ, zero, suc, ◌+◌, ◌<◌, ◌≡◌, ◌≢◌, refl, sym, ap, ◌∙◌, List, [], ◌∷◌, ◌++◌, append-nil, Bytes,
  Result, ok, err, arith, length, All, ◌==◌, if◌then◌else◌,
}
use aegis_ebpf.Events.Types.{AuditEvent}
use aegis_ebpf.Events.Validate.{Violation, validate}
use aegis_ebpf.Http.Responses.{
  FieldError, entries, field_errors, Request, post_events, invalid_events, answered, write_problem,
  ingested,
}
use aegis_ebpf.Http.Accepting.{size_ok}
use aegis_ebpf.Http.Outcomes.{Sends}
use aegis_ebpf.Http.{Decoder, take_batch, take_body, ingest_events, handle}
use aegis_ebpf.Fixer.Yaml.{Yaml}

-- The messages of the entries with an index, in order.
abbrev pub messages_at : ℕ → List FieldError → List Violation
messages_at j [] = []
messages_at j (e ∷ es) = if e.index == j then e.message ∷ messages_at j es else messages_at j es

messages_at_self :
    (j : ℕ) (vs : List Violation) (rest : List FieldError)
    → messages_at j (entries j vs ++ rest) ≡ vs ++ messages_at j rest
messages_at_self j [] rest = refl
messages_at_self j (v ∷ vs) rest = ground (arith, messages_at_self j vs rest)

messages_at-other :
    (i j : ℕ) (vs : List Violation) (rest : List FieldError)
    → i ≢ j
    → messages_at j (entries i vs ++ rest) ≡ messages_at j rest
messages_at-other i j [] rest ne = refl
messages_at-other i j (v ∷ vs) rest ne = ground (arith, ne, messages_at-other i j vs rest ne)

field_errors-add :
    (i : ℕ) (vs : List Violation) (es : List Invalid)
    → field_errors (add_invalid i vs es) ≡ entries i vs ++ field_errors es
unfolding field_errors
field_errors-add i [] es = refl
field_errors-add i (v ∷ vs) es = refl

messages_early :
    (batch : List AuditEvent) (i j : ℕ)
    → j < i
    → messages_at j (field_errors (invalid_from i batch)) ≡ []
unfolding invalid_from field_errors
messages_early [] i j lt = refl
messages_early (ev ∷ batch) i j lt =
    ap (messages_at j) (field_errors-add i (validate ev) (invalid_from (i + 1) batch))
    ∙ messages_at-other i j (validate ev) (field_errors (invalid_from (i + 1) batch))
        (λ e. absurd (omega (arith, lt, e)))
    ∙ messages_early batch (i + 1) j (omega arith)

messages_are :
    (batch : List AuditEvent) (i j k : ℕ)
    → k ≡ i + j
    → messages_at k (field_errors (invalid_from i batch)) ≡ violations_at batch j
unfolding invalid_from field_errors
messages_are [] i j k e = refl
messages_are (ev ∷ batch) i zero k e =
    let later = field_errors (invalid_from (i + 1) batch) in
    let here : i ≡ k = omega (arith, e) in
    ap (messages_at k) (field_errors-add i (validate ev) (invalid_from (i + 1) batch))
    ∙ ap (λ (n : ℕ). messages_at k (entries n (validate ev) ++ later)) here
    ∙ messages_at_self k (validate ev) later
    ∙ ap (◌++◌ (validate ev)) (messages_early batch (i + 1) k (omega (arith, e)))
    ∙ append-nil (validate ev)
messages_are (ev ∷ batch) i (suc j) k e =
    ap (messages_at k) (field_errors-add i (validate ev) (invalid_from (i + 1) batch))
    ∙ messages_at-other i k (validate ev) (field_errors (invalid_from (i + 1) batch))
        (λ q. absurd (omega (arith, e, q)))
    ∙ messages_are batch (i + 1) j k (omega (arith, e))

module _ (y : Yaml) (decode : Decoder) (new_id : ℕ → Bytes) where
  handle_refuses :
      (a : Agent) (req : Request) (batch : List AuditEvent) (es : List Invalid)
      → Sends y decode new_id req batch
      → ingest new_id a batch ≡ err es
      → handle y decode new_id a post_events req
        ≡ answered a (write_problem 400 invalid_events (field_errors es))
  unfolding handle ingest_events take_batch take_body ingested
  handle_refuses a req batch es s e =
      rw (s.typed, s.decoded, size_ok (length batch) s.some_events s.few_events, e)

  -- A batch of JSON of 1 to 1000 events of which one does not validate is answered with 400, leaves the
  -- agent as it is and publishes nothing; the entries of the response give for each index of the batch
  -- exactly what `Validate` reports of the event there, in its order, and nothing for other indices.
  pub handle_refused :
      (a : Agent) (req : Request) (batch : List AuditEvent)
      → Sends y decode new_id req batch
      → ¬ All (λ ev. validate ev ≡ []) batch
      → (errors : List FieldError) × (handle y decode new_id a post_events req
          ≡ answered a (write_problem 400 invalid_events errors))
        × ((j : ℕ) → messages_at j errors ≡ violations_at batch j)
  unfolding ingest
  handle_refused a req batch s bad = by_result (ingest new_id a batch) refl
    where
      by_result :
          (o : Result (List Invalid) Ingested)
          → ingest new_id a batch ≡ o
          → (errors : List FieldError) × (handle y decode new_id a post_events req
              ≡ answered a (write_problem 400 invalid_events errors))
            × ((j : ℕ) → messages_at j errors ≡ violations_at batch j)
      by_result (ok r) e = absurd (bad ((ingest_takes_iff new_id a batch).0 (r, e)))
      by_result (err es) e = (
        field_errors es,
        handle_refuses a req batch es s e,
        λ j.
            ap (λ (is : List Invalid). messages_at j (field_errors is))
              (sym (outcome-reported new_id a batch es (invalid_from 0 batch) e))
            ∙ messages_are batch 0 j j (omega arith),
      )
