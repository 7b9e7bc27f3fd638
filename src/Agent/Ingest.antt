-- ===== src/Agent/Ingest.antt =====
-- internal/agent/agent.go: `Ingest`. Publishing and responding happen behind the lock, on the
-- events that were stored; here they are part of the result.
pub mod Follows
pub mod Batches
pub mod Refusals
pub mod Severities
pub mod Keeping
pub mod Open
pub mod Pairing
pub mod Planned
use aegis_ebpf.Base.{
  ℕ, zero, suc, ◌+◌, Bool, true, false, ◌&&◌, List, [], ◌∷◌, ◌++◌, Option, none, some, Bytes, ◌=b◌,
  ltb, leb, not, Result, ok, err, if◌then◌else◌,
}
use aegis_ebpf.Agent.Remediations.{record_match}
use aegis_ebpf.Agent.Ring.{store}
use aegis_ebpf.Agent.State.{PodInfo, Enricher, Agent}
use aegis_ebpf.Events.Types.{severity_info, severity_high, rank, Pod, Container, AuditEvent}
use aegis_ebpf.Events.Validate.{Violation, validate}
use aegis_ebpf.Fixer.Rules.{Rule}

-- `InvalidEventError`: the index in the batch, and what `Validate` reports.
abbrev pub Invalid : Type 0
Invalid = ℕ × List Violation

abbrev pub add_invalid : ℕ → List Violation → List Invalid → List Invalid
add_invalid i [] rest = rest
add_invalid i (v ∷ vs) rest = (i, v ∷ vs) ∷ rest

-- The first loop of `Ingest`.
unfoldable pub invalid_from : ℕ → List AuditEvent → List Invalid
invalid_from i [] = []
invalid_from i (ev ∷ batch) = add_invalid i (validate ev) (invalid_from (i + 1) batch)

abbrev pub is_resolved : Option Pod → Bool
is_resolved none = false
is_resolved (some p) = not (p.name =b [])

abbrev pub pod_of : Option PodInfo → Option Pod → Option Pod
pod_of none old = old
pod_of (some p) old = some (record { uid = p.uid; name = p.name; namespace = p.namespace })

abbrev pub enrich_container : Enricher → Container → Container
enrich_container lookup c =
    if is_resolved c.pod then c else record c { pod = pod_of (lookup c.id) c.pod }

enrich_with : Option Enricher → AuditEvent → Option Container → AuditEvent
enrich_with (some lookup) ev (some c) = record ev { container = some (enrich_container lookup c) }
enrich_with _ ev _ = ev

-- `enrichLocked`.
unfoldable pub enrich : Option Enricher → AuditEvent → AuditEvent
unfolding enrich_with
enrich lookup ev = enrich_with lookup ev ev.container

-- The severity after a match.
abbrev pub raised : Rule → AuditEvent → AuditEvent
raised r ev =
    if ltb (rank ev.severity) (rank r.severity) then record ev { severity = r.severity } else ev

-- The events that go to the responder.
unfoldable pub responded : Bool → List AuditEvent → List AuditEvent
responded responds [] = []
responded responds (ev ∷ evs) =
    let rest = responded responds evs in
    if responds && leb (rank severity_high) (rank ev.severity) then ev ∷ rest else rest

pub record Ingested : Type 0 where
  pub agent : Agent
  pub stored : List AuditEvent
  pub to_responder : List AuditEvent

module _ (new_id : ℕ → Bytes) where
  record_for : Agent → Rule → AuditEvent → Option Container → Agent
  record_for a r ev none = a
  record_for a r ev (some c) = record_match new_id a r ev c

  -- The loop over the rules.
  unfoldable pub apply_rules : List Rule → AuditEvent → Agent → AuditEvent × Agent
  unfolding record_for
  apply_rules [] ev a = (ev, a)
  apply_rules (r ∷ rules) ev a =
      let ev' = raised r ev in
      if r.matches ev
      then apply_rules rules ev' (record_for a r ev' ev'.container)
      else apply_rules rules ev a

  -- One round of the loop over the batch, up to the store.
  unfoldable pub classify : Agent → AuditEvent → AuditEvent × Agent
  unfolding apply_rules enrich
  classify a ev =
      apply_rules a.rules
        (enrich a.enricher (record ev { id = new_id a.issued; severity = severity_info }))
        (record a { issued = a.issued + 1 })

  unfoldable pub ingest_one : Agent → AuditEvent → AuditEvent × Agent
  unfolding classify
  ingest_one a ev = let (ev', a') = classify a ev in (ev', store a' ev')

  unfoldable pub ingest_all : Agent → List AuditEvent → List AuditEvent × Agent
  ingest_all a [] = ([], a)
  ingest_all a (ev ∷ batch) =
      let (ev', a') = ingest_one a ev in let (evs, a'') = ingest_all a' batch in (ev' ∷ evs, a'')

  unfoldable pub outcome : Agent → List AuditEvent → List Invalid → Result (List Invalid) Ingested
  outcome a batch (e ∷ es) = err (e ∷ es)
  outcome a batch [] =
      let (evs, a') = ingest_all a batch in
      ok (record { agent = a'; stored = evs; to_responder = responded a.responds evs })

  -- `Ingest`: the IDs that it returns are those of the stored events.
  unfoldable pub ingest : Agent → List AuditEvent → Result (List Invalid) Ingested
  unfolding outcome
  ingest a batch = outcome a batch (invalid_from 0 batch)
