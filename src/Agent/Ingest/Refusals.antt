-- ===== src/Agent/Ingest/Refusals.antt =====
-- The first loop of `Ingest` of internal/agent/agent.go: which batches it refuses, and why.
use mathlib.Core.Path.{subst}
use aegis_ebpf.Base.{
  ℕ, zero, suc, ◌+◌, ◌<◌, ◌≡◌, ◌≢◌, ◌↔◌, refl, ap, ◌∙◌, List, [], ◌∷◌, Bytes, arith, All, ok, err,
  ◌==◌, if◌then◌else◌,
}
use aegis_ebpf.Agent.Ingest.{
  Invalid, Ingested, add_invalid, invalid_from, responded, ingest_all, outcome, ingest,
}
use aegis_ebpf.Agent.State.{Agent}
use aegis_ebpf.Events.Types.{AuditEvent}
use aegis_ebpf.Events.Validate.{Violation, validate}

-- What the errors of a batch say of the event at `j`; nothing is the empty list.
abbrev pub reported : ℕ → List Invalid → List Violation
reported j [] = []
reported j ((k, vs) ∷ es) = if k == j then vs else reported j es

-- What `Validate` says of the event at `j`; there is nothing to say of an event that is not there.
abbrev pub violations_at : List AuditEvent → ℕ → List Violation
violations_at [] j = []
violations_at (ev ∷ batch) zero = validate ev
violations_at (ev ∷ batch) (suc j) = violations_at batch j

reported_self :
    (i : ℕ) (vs : List Violation) (rest : List Invalid)
    → reported i rest ≡ []
    → reported i (add_invalid i vs rest) ≡ vs
reported_self i [] rest e = e
reported_self i (v ∷ vs) rest e = ground arith

reported_other :
    (i j : ℕ) (vs : List Violation) (rest : List Invalid)
    → i ≢ j
    → reported j (add_invalid i vs rest) ≡ reported j rest
reported_other i j [] rest ne = refl
reported_other i j (v ∷ vs) rest ne = ground (arith, ne)

reported_early :
    (batch : List AuditEvent) (i j : ℕ) → j < i → reported j (invalid_from i batch) ≡ []
unfolding invalid_from
reported_early [] i j lt = refl
reported_early (ev ∷ batch) i j lt =
    reported_other i j (validate ev) (invalid_from (i + 1) batch) (λ e. absurd (omega (arith, e)))
    ∙ reported_early batch (i + 1) j (omega arith)

reported_is :
    (batch : List AuditEvent) (i j k : ℕ)
    → k ≡ i + j
    → reported k (invalid_from i batch) ≡ violations_at batch j
unfolding invalid_from
reported_is [] i j k e = refl
reported_is (ev ∷ batch) i zero k e =
    let here : i ≡ k = omega (arith, e) in
    ap (λ (n : ℕ). reported k (add_invalid n (validate ev) (invalid_from (i + 1) batch))) here
    ∙ reported_self k (validate ev) (invalid_from (i + 1) batch)
        (reported_early batch (i + 1) k (omega (arith, e)))
reported_is (ev ∷ batch) i (suc j) k e =
    reported_other i k (validate ev) (invalid_from (i + 1) batch)
      (λ q. absurd (omega (arith, e, q)))
    ∙ reported_is batch (i + 1) j k (omega (arith, e))

added_none :
    (i : ℕ) (vs : List Violation) (rest : List Invalid)
    → add_invalid i vs rest ≡ []
    → (vs ≡ []) × (rest ≡ [])
added_none i [] rest e = (refl, e)
added_none i (v ∷ vs) rest e = absurd (cc)

All-invalid_from :
    (batch : List AuditEvent) (i : ℕ)
    → invalid_from i batch ≡ []
    → All (λ ev. validate ev ≡ []) batch
unfolding invalid_from
All-invalid_from [] i e = tt
All-invalid_from (ev ∷ batch) i e =
    let (here, rest) = added_none i (validate ev) (invalid_from (i + 1) batch) e in
    (here, All-invalid_from batch (i + 1) rest)

none_invalid :
    (batch : List AuditEvent) (i : ℕ)
    → All (λ ev. validate ev ≡ []) batch
    → invalid_from i batch ≡ []
unfolding invalid_from
none_invalid [] i v = refl
none_invalid (ev ∷ batch) i (here, rest) =
    ap (λ vs. add_invalid i vs (invalid_from (i + 1) batch)) here ∙ none_invalid batch (i + 1) rest

module _ (new_id : ℕ → Bytes) where
  pub outcome-reported :
      (a : Agent) (batch : List AuditEvent) (es is : List Invalid)
      → outcome new_id a batch is ≡ err es
      → is ≡ es
  unfolding outcome
  outcome-reported a batch es [] e = absurd (cc)
  outcome-reported a batch es (x ∷ is) e = cc

  -- When `Ingest` refuses a batch, its errors say of each event of the batch, by its index, exactly
  -- what `Validate` says of it, and nothing of any other index.
  pub ingest_refuses :
      (a : Agent) (batch : List AuditEvent) (es : List Invalid) (j : ℕ)
      → ingest new_id a batch ≡ err es
      → reported j es ≡ violations_at batch j
  unfolding ingest
  ingest_refuses a batch es j e =
      subst (λ (is : List Invalid). reported j is ≡ violations_at batch j)
        (outcome-reported a batch es (invalid_from 0 batch) e)
        (reported_is batch 0 j j (omega arith))

  -- `Ingest` takes a batch exactly when every event of it validates.
  pub ingest_takes_iff :
      (a : Agent) (batch : List AuditEvent)
      → ((r : Ingested) × (ingest new_id a batch ≡ ok r)) ↔ All (λ ev. validate ev ≡ []) batch
  unfolding ingest outcome
  ingest_takes_iff a batch = (takes, λ v. taken (none_invalid batch 0 v))
    where
      open_outcome :
          (is : List Invalid) → (r : Ingested) × (outcome new_id a batch is ≡ ok r) → is ≡ []
      open_outcome [] p = refl
      open_outcome (x ∷ is) (r, e) = absurd (cc)

      takes : (r : Ingested) × (ingest new_id a batch ≡ ok r) → All (λ ev. validate ev ≡ []) batch
      takes p = All-invalid_from batch 0 (open_outcome (invalid_from 0 batch) p)

      taken : invalid_from 0 batch ≡ [] → (r : Ingested) × (ingest new_id a batch ≡ ok r)
      taken e =
          let (evs, a') = ingest_all new_id a batch in
          let out : Ingested = record {
            agent = a';
            stored = evs;
            to_responder = responded a.responds evs;
          } in
          (out, ap (outcome new_id a batch) e)
