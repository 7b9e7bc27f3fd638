-- ===== src/Agent/Ingest/Planned.antt =====
-- The operations of every remediation of internal/agent/agent.go, over whole batches: each plan was
-- made for an event that validates.
use mathlib.Core.Path.{subst}
use aegis_ebpf.Base.Maps.{find}
use aegis_ebpf.Base.{
  ℕ, ◌≡◌, refl, sym, List, Bytes, Option, none, some, All, Bool, true, false, ltb, if◌then◌else◌,
}
use aegis_ebpf.Agent.Ingest.Batches.{Reaches}
use aegis_ebpf.Agent.Ingest.Keeping.{Keeps, Reaches-keeps}
use aegis_ebpf.Agent.Ingest.{is_resolved, pod_of, enrich, enrich_with, raised}
use aegis_ebpf.Agent.Remediations.Planned.{Planned, record_match-Planned}
use aegis_ebpf.Agent.Ring.{store}
use aegis_ebpf.Agent.State.{Agent, Enricher, new}
use aegis_ebpf.Events.Types.{severity_info, Container, AuditEvent, rank}
use aegis_ebpf.Events.Accepted.{validate_iff}
use aegis_ebpf.Fixer.Operation.{Operation}
use aegis_ebpf.Fixer.Rules.Plans.{HasValidName, IsContainer-HasValidName}
use aegis_ebpf.Fixer.Rules.{Rule, plan}

raised-HasValidName :
    (r : Rule) (ev : AuditEvent) → HasValidName ev.container → HasValidName (raised r ev).container
raised-HasValidName r ev v = either (ltb (rank ev.severity) (rank r.severity))
  where
    either :
        (b : Bool) → HasValidName (if b then record ev { severity = r.severity } else ev).container
    either true = v
    either false = v

enrich-HasValidName :
    (lookup : Option Enricher) (ev : AuditEvent)
    → HasValidName ev.container
    → HasValidName (enrich lookup ev).container
unfolding enrich enrich_with
enrich-HasValidName none ev v = v
enrich-HasValidName (some lookup) ev v = given ev.container refl v
  where
    either :
        (c : Container) (b : Bool)
        → HasValidName (some c)
        → HasValidName (some (if b then c else record c { pod = pod_of (lookup c.id) c.pod }))
    either c true v = v
    either c false v = v

    given :
        (o : Option Container)
        → ev.container ≡ o
        → HasValidName o
        → HasValidName (enrich_with (some lookup) ev o).container
    given none e v = subst HasValidName (sym e) v
    given (some c) e v = either c (is_resolved c.pod) v

module _ (P : List Operation → Type 0) (new_id : ℕ → Bytes) where
  -- The plan of the rule, for an event whose container has a valid name, satisfies `P`.
  abbrev pub Sound : Rule → Type 0
  Sound r = (ev : AuditEvent) → HasValidName ev.container → P (plan r ev)

  keeps-Planned : Keeps new_id Sound (λ ev. HasValidName ev.container) (Planned P)
  unfolding new store find
  keeps-Planned = record {
    starts = λ cfg id rem e. absurd (cc);
    accepts = λ a ev h.
        enrich-HasValidName a.enricher
          (record ev { id = new_id a.issued; severity = severity_info })
          (IsContainer-HasValidName ev.container ((validate_iff ev).0 h).container_ok);
    raises = raised-HasValidName;
    records = λ a r ev c sound v p. record_match-Planned P new_id a r ev c (sound ev v) p;
    issues = λ a p. p;
    stores = λ a ev p. p;
  }

  -- In an agent that has taken any sequence of batches since `New`, the operations of every
  -- remediation have each property that all plans of its rules have, for events whose container has a
  -- valid name.
  pub Reaches-Planned :
      (a : Agent) (h : List AuditEvent) → Reaches new_id a h → All Sound a.rules → Planned P a
  Reaches-Planned = Reaches-keeps new_id keeps-Planned
