-- ===== src/Agent/State.antt =====
-- internal/agent/agent.go: the state of an `Agent`, and `New`. Maps are association lists. A
-- pointer to a remediation is its ID, under which `rems` holds it: the new IDs are distinct.
use aegis_ebpf.Base.{
  ℕ, ℤ, zero, suc, pos, negsuc, Bool, List, [], Option, none, some, Bytes, replicate,
}
use aegis_ebpf.Events.Types.{Time, zero_time, Container, AuditEvent}
use aegis_ebpf.Fixer.Operation.{Operation}
use aegis_ebpf.Fixer.Rules.{Rule, default_rules}

pub record PodInfo : Type 0 where
  pub name : Bytes
  pub namespace : Bytes
  pub uid : Bytes

-- `Enricher.Lookup`, as it answers while a batch is ingested.
abbrev pub Enricher : Type 0
Enricher = Bytes → Option PodInfo

pub record Remediation : Type 0 where
  pub id : Bytes
  pub rule : Rule
  pub container : Container
  pub event_id : Bytes
  pub occurrences : ℕ
  pub first_seen : Time
  pub last_seen : Time
  pub operations : List Operation

-- `remKey`: the rule's ID and the container's.
abbrev pub RemKey : Type 0
RemKey = Bytes × Bytes

-- `issued` counts the calls of `newID` so far; it is the model's own.
pub record Agent : Type 0 where
  pub rules : List Rule
  pub max_rems : ℕ
  pub enricher : Option Enricher
  pub responds : Bool
  pub ring : List AuditEvent
  pub head : ℕ
  pub stored : ℕ
  pub by_id : List (Bytes × ℕ)
  pub rems : List (Bytes × Remediation)
  pub rem_for : List (RemKey × Bytes)
  pub issued : ℕ

-- The zero value of a slot of the ring.
abbrev pub zero_event : AuditEvent
zero_event = record {
  id = [];
  kind = [];
  time = zero_time;
  node = [];
  severity = [];
  process = record { pid = pos 0; ppid = pos 0; uid = 0; gid = 0; comm = []; cgroup_id = 0 };
  container = none;
  payload = none;
}

pub record Config : Type 0 where
  pub max_events : ℤ
  pub max_remediations : ℤ
  pub rules : Option (List Rule)
  pub enricher : Option Enricher
  pub responds : Bool

-- `if n <= 0 { n = 10000 }`.
abbrev pub or_default : ℤ → ℕ
or_default (pos zero) = 10000
or_default (pos (suc n)) = suc n
or_default (negsuc _) = 10000

abbrev pub rules_or_default : Option (List Rule) → List Rule
rules_or_default none = default_rules
rules_or_default (some rules) = rules

-- `New`.
unfoldable pub new : Config → Agent
new cfg = record {
  rules = rules_or_default cfg.rules;
  max_rems = or_default cfg.max_remediations;
  enricher = cfg.enricher;
  responds = cfg.responds;
  ring = replicate (or_default cfg.max_events) zero_event;
  head = 0;
  stored = 0;
  by_id = [];
  rems = [];
  rem_for = [];
  issued = 0;
}
