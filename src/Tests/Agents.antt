-- ===== src/Tests/Agents.antt =====
-- The control plane, internal/agent/agent.go, on small batches.
use Prim.Native.Nat.{min}
use mathlib.Core.List.{Perm}
use aegis_ebpf.Base.{
  if◌then◌else◌, ◌==◌, arith, ℕ, pos, ◌≡◌, ◌↔◌, ◌<◌, refl, List, [], ◌∷◌, none, some, ok, Bytes,
  ◌++◌, length, filter, take, true,
}
use aegis_ebpf.Agent.Ingest.Batches.{Reaches, fresh, taken, Reaches-events, Reaches-event}
use aegis_ebpf.Agent.Ingest.Follows.{onto}
use aegis_ebpf.Agent.Ingest.Open.{Reaches-Bounded}
use aegis_ebpf.Agent.Ingest.Refusals.{ingest_takes_iff}
use aegis_ebpf.Agent.Ingest.Severities.{
  Peak, with_severity, apply_rules-Peak, default_rules-IgnoreSeverity,
}
use aegis_ebpf.Agent.Ingest.{Ingested, apply_rules, ingest}
use aegis_ebpf.Agent.Remediations.Bounds.{Bounded, evict_lem}
use aegis_ebpf.Agent.Remediations.Oldest.{NotBefore}
use aegis_ebpf.Agent.Remediations.{evict}
use aegis_ebpf.Agent.Listing.Order.{NewestFirst, passing, remediations_lem}
use aegis_ebpf.Agent.Listing.{RemediationFilter, remediations}
use aegis_ebpf.Agent.Ring.History.{capped}
use aegis_ebpf.Agent.Ring.Entries.{IsLive}
use aegis_ebpf.Agent.Ring.{EventFilter, keeps, events, event}
use aegis_ebpf.Base.Maps.{erase, bytes_key, pair_key}
use aegis_ebpf.Agent.State.{Agent, Config, Remediation, new}
use aegis_ebpf.Events.Types.{AuditEvent, kind_file_open, severity_low, severity_info}
use aegis_ebpf.Fixer.Rules.{default_rules, rule_root}
use aegis_ebpf.Tests.Audits.{file_event-valid}
use aegis_ebpf.Tests.Samples.{file_event, web_container}

abbrev pub counter_id : ℕ → Bytes
counter_id n = n ∷ []

pub counter_id-distinct : (i j : ℕ) → counter_id i ≡ counter_id j → i ≡ j
counter_id-distinct i j e = cc

abbrev pub small : Config
small = record {
  max_events = pos 2;
  max_remediations = pos 1;
  rules = none;
  enricher = none;
  responds = true;
}

abbrev batch : List AuditEvent
batch = file_event ∷ file_event ∷ file_event ∷ []

run : (r : Ingested) × (ingest counter_id (new small) batch ≡ ok r)
run =
    (ingest_takes_iff counter_id (new small) batch).1
      (file_event-valid, (file_event-valid, (file_event-valid, tt)))

abbrev history : List AuditEvent
history = onto run.0.stored []

run-Reaches : Reaches counter_id run.0.agent history
run-Reaches = taken (new small) [] batch run.0 (fresh small) run.1

abbrev open_filter : EventFilter
open_filter = record {
  kind = kind_file_open;
  min_severity = severity_low;
  container_id = [];
  limit = 5;
}

Reaches-events_example :
    events run.0.agent open_filter
    ≡ capped 5
        (filter (keeps open_filter) (take (min (length history) (length run.0.agent.ring)) history))
Reaches-events_example =
    Reaches-events counter_id counter_id-distinct run.0.agent history open_filter run-Reaches

Reaches-event_example :
    (event run.0.agent (counter_id 2) ≡ some file_event)
    ↔ (IsLive run.0.agent history file_event × (file_event.id ≡ counter_id 2))
Reaches-event_example =
    Reaches-event counter_id counter_id-distinct run.0.agent history (counter_id 2) file_event
      run-Reaches

Reaches-Bounded_example : Bounded run.0.agent
Reaches-Bounded_example = Reaches-Bounded counter_id run.0.agent history run-Reaches

abbrev pub one_rem : Remediation
one_rem = record {
  id = counter_id 0;
  rule = rule_root;
  container = web_container;
  event_id = counter_id 1;
  occurrences = 1;
  first_seen = 5;
  last_seen = 5;
  operations = [];
}

abbrev pub later_rem : Remediation
later_rem = record one_rem { id = counter_id 2; last_seen = 9 }

abbrev pub loaded : Agent
loaded = record (new small) { rems = (counter_id 2, later_rem) ∷ (counter_id 0, one_rem) ∷ [] }

evict_lem_example :
    (old : Remediation) × NotBefore old loaded.rems
    × ((evict loaded).rems ≡ erase old.id loaded.rems)
    × ((evict loaded).rem_for ≡ erase (old.rule.id, old.container.id) loaded.rem_for)
    × (length (evict loaded).rems < length loaded.rems)
evict_lem_example = evict_lem loaded (refl, (refl, tt)) (omega arith)

apply_rules-Peak_example :
    Peak file_event severity_info default_rules
      (apply_rules counter_id default_rules
        (with_severity severity_info file_event)
        (new small)).0.severity
apply_rules-Peak_example =
    apply_rules-Peak counter_id default_rules file_event severity_info (new small)
      default_rules-IgnoreSeverity

abbrev any_remediation : RemediationFilter
any_remediation = record { min_severity = []; container_id = []; limit = 1 }

remediations_lem_example :
    (rest : List Remediation) × NewestFirst (remediations loaded any_remediation ++ rest)
    × Perm (remediations loaded any_remediation ++ rest) (passing loaded any_remediation)
    × (length (remediations loaded any_remediation) ≡ (
        if 1 == 0
        then length (passing loaded any_remediation)
        else min 1 (length (passing loaded any_remediation))))
remediations_lem_example = remediations_lem loaded any_remediation
