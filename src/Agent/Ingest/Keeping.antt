-- ===== src/Agent/Ingest/Keeping.antt =====
-- What `Ingest` of internal/agent/agent.go keeps of an agent, from its parts: an invariant that each of
-- them keeps holds after any sequence of batches.
use mathlib.Core.Path.{subst}
use aegis_ebpf.Base.{
  ℕ, ◌+◌, ◌≡◌, refl, sym, ◌∙◌, List, [], ◌∷◌, Bytes, Option, none, some, Bool-cases, inl, inr, ok,
  All,
}
use aegis_ebpf.Agent.Ingest.Batches.{Reaches, fresh, taken}
use aegis_ebpf.Agent.Ingest.Refusals.{ingest_takes_iff}
use aegis_ebpf.Agent.Ingest.{
  Invalid, Ingested, invalid_from, enrich, raised, record_for, apply_rules, classify, ingest_one,
  ingest_all, responded, outcome, ingest,
}
use aegis_ebpf.Agent.Remediations.{record_match}
use aegis_ebpf.Agent.Remediations.Planned.{record_match-rules}
use aegis_ebpf.Agent.Ring.{store}
use aegis_ebpf.Agent.State.{Agent, Config, new}
use aegis_ebpf.Events.Types.{severity_info, Container, AuditEvent}
use aegis_ebpf.Events.Validate.{validate}
use aegis_ebpf.Fixer.Rules.{Rule}

-- The event that the rules see first.
abbrev pub stamped : (ℕ → Bytes) → Agent → AuditEvent → AuditEvent
stamped new_id a ev =
    enrich a.enricher (record ev { id = new_id a.issued; severity = severity_info })

module _ (new_id : ℕ → Bytes) where
  -- Each part keeps `I`: for rules that satisfy `R`, and events that satisfy `V`.
  pub record Keeps (R : Rule → Type 0) (V : AuditEvent → Type 0) (I : Agent → Type 0) : Type 0 where
    pub starts : (cfg : Config) → I (new cfg)
    pub accepts : (a : Agent) (ev : AuditEvent) → validate ev ≡ [] → V (stamped new_id a ev)
    pub raises : (r : Rule) (ev : AuditEvent) → V ev → V (raised r ev)
    pub records :
        (a : Agent) (r : Rule) (ev : AuditEvent) (c : Container)
        → R r
        → V ev
        → I a
        → I (record_match new_id a r ev c)
    pub issues : (a : Agent) → I a → I (record a { issued = a.issued + 1 })
    pub stores : (a : Agent) (ev : AuditEvent) → I a → I (store a ev)

  record_for-rules :
      (a : Agent) (r : Rule) (ev : AuditEvent) (o : Option Container)
      → (record_for new_id a r ev o).rules ≡ a.rules
  unfolding record_for
  record_for-rules a r ev none = refl
  record_for-rules a r ev (some c) = record_match-rules new_id a r ev c

  apply_rules-rules :
      (rules : List Rule) (ev : AuditEvent) (a : Agent)
      → (apply_rules new_id rules ev a).1.rules ≡ a.rules
  unfolding apply_rules
  apply_rules-rules [] ev a = refl
  apply_rules-rules (r ∷ rules) ev a = elim (Bool-cases (r.matches ev)) [
    | inl e ↦
        let matched = raised r ev in
        rw e (
          apply_rules-rules rules matched (record_for new_id a r matched matched.container)
          ∙ record_for-rules a r matched matched.container)
    | inr e ↦ rw e (apply_rules-rules rules ev a)
  ]

  ingest_one-rules : (a : Agent) (ev : AuditEvent) → (ingest_one new_id a ev).1.rules ≡ a.rules
  unfolding ingest_one classify store
  ingest_one-rules a ev =
      apply_rules-rules a.rules (stamped new_id a ev) (record a { issued = a.issued + 1 })

  ingest_all-rules :
      (a : Agent) (batch : List AuditEvent) → (ingest_all new_id a batch).1.rules ≡ a.rules
  unfolding ingest_all
  ingest_all-rules a [] = refl
  ingest_all-rules a (ev ∷ batch) =
      ingest_all-rules (ingest_one new_id a ev).1 batch ∙ ingest_one-rules a ev

  module _ {R : Rule → Type 0} {V : AuditEvent → Type 0} {I : Agent → Type 0}
      (k : Keeps R V I) where
    record_for-keeps :
        (a : Agent) (r : Rule) (ev : AuditEvent) (o : Option Container)
        → R r
        → V ev
        → I a
        → I (record_for new_id a r ev o)
    unfolding record_for
    record_for-keeps a r ev none good v i = i
    record_for-keeps a r ev (some c) good v i = k.records a r ev c good v i

    apply_rules-keeps :
        (rules : List Rule) (ev : AuditEvent) (a : Agent)
        → All R rules
        → V ev
        → I a
        → I (apply_rules new_id rules ev a).1
    unfolding apply_rules
    apply_rules-keeps [] ev a rs v i = i
    apply_rules-keeps (r ∷ rules) ev a (here, rs) v i = elim (Bool-cases (r.matches ev)) [
      | inl e ↦
          let matched = raised r ev in
          let valid = k.raises r ev v in
          rw e (
            apply_rules-keeps rules matched (record_for new_id a r matched matched.container) rs
              valid (record_for-keeps a r matched matched.container here valid i))
      | inr e ↦ rw e (apply_rules-keeps rules ev a rs v i)
    ]

    ingest_all-keeps :
        (a : Agent) (batch : List AuditEvent)
        → All R a.rules
        → All (λ ev. validate ev ≡ []) batch
        → I a
        → I (ingest_all new_id a batch).1
    unfolding ingest_all ingest_one classify
    ingest_all-keeps a [] rs v i = i
    ingest_all-keeps a (ev ∷ batch) rs (here, v) i =
        let (ev', a') =
          apply_rules new_id a.rules (stamped new_id a ev) (record a { issued = a.issued + 1 }) in
        ingest_all-keeps (store a' ev') batch (subst (All R) (sym (ingest_one-rules a ev)) rs) v (
          k.stores a' ev' (
            apply_rules-keeps a.rules (stamped new_id a ev) (record a { issued = a.issued + 1 }) rs
              (k.accepts a ev here) (k.issues a i)))

    -- What one accepted batch does to the rules and to what is kept.
    abbrev Steps : Agent → Agent → Type 0
    Steps a b = (b.rules ≡ a.rules) × (All R a.rules → I a → I b)

    outcome-Steps :
        (a : Agent) (batch : List AuditEvent) (es : List Invalid) (r : Ingested)
        → All (λ ev. validate ev ≡ []) batch
        → outcome new_id a batch es ≡ ok r
        → Steps a r.agent
    unfolding outcome
    outcome-Steps a batch (x ∷ es) r v e = absurd (cc)
    outcome-Steps a batch [] r v e =
        let (evs, a') = ingest_all new_id a batch in
        let out : Ingested = record {
          agent = a';
          stored = evs;
          to_responder = responded a.responds evs;
        } in
        let same : out ≡ r = cc in
        subst (λ (q : Ingested). Steps a q.agent) same
          (ingest_all-rules a batch, λ rs i. ingest_all-keeps a batch rs v i)

    -- In an agent that has taken any sequence of batches since `New`, what its parts keep holds.
    pub Reaches-keeps : (a : Agent) (h : List AuditEvent) → Reaches new_id a h → All R a.rules → I a
    unfolding ingest
    Reaches-keeps _ _ (fresh cfg) rs = k.starts cfg
    Reaches-keeps _ _ (taken a h batch r reached e) rs =
        let v = (ingest_takes_iff new_id a batch).0 (r, e) in
        let (same, steps) = outcome-Steps a batch (invalid_from 0 batch) r v e in
        let rs' = subst (All R) same rs in steps rs' (Reaches-keeps a h reached rs')

    -- The same where nothing is asked of the rules.
    pub Reaches-keeps_always :
        ((r : Rule) → R r) → (a : Agent) (h : List AuditEvent) → Reaches new_id a h → I a
    Reaches-keeps_always every a h reached = Reaches-keeps a h reached (all a.rules)
      where
        all : (rules : List Rule) → All R rules
        all [] = tt
        all (r ∷ rules) = (every r, all rules)
