-- ===== src/Events/Types.antt =====
-- internal/events/events.go: the data of an audit event. Kinds and severities are strings, as in
-- the source; `Time` counts nanoseconds from the least instant that `time.Time` can hold.
use aegis_ebpf.Base.{ℕ, ℤ, ◌*◌, ◌^◌, Bool, not, List, [], ◌∷◌, Option, ◌==◌, Bytes, codes}
use aegis_ebpf.Go.Text.{contains, position}

abbrev pub Kind : Type 0
Kind = Bytes

abbrev pub kind_process_exec : Kind
kind_process_exec = codes "process_exec"

abbrev pub kind_file_open : Kind
kind_file_open = codes "file_open"

abbrev pub kind_privilege_escalation : Kind
kind_privilege_escalation = codes "privilege_escalation"

abbrev pub kind_network_connect : Kind
kind_network_connect = codes "network_connect"

abbrev pub kind_ptrace : Kind
kind_ptrace = codes "ptrace"

abbrev pub kinds : List Kind
kinds =
    kind_process_exec ∷ kind_file_open ∷ kind_privilege_escalation ∷ kind_network_connect
    ∷ kind_ptrace ∷ []

-- `Kind.Valid`.
unfoldable pub is_kind : Kind → Bool
is_kind k = contains kinds k

abbrev pub Severity : Type 0
Severity = Bytes

abbrev pub severity_info : Severity
severity_info = codes "info"

abbrev pub severity_low : Severity
severity_low = codes "low"

abbrev pub severity_medium : Severity
severity_medium = codes "medium"

abbrev pub severity_high : Severity
severity_high = codes "high"

abbrev pub severity_critical : Severity
severity_critical = codes "critical"

abbrev pub severities : List Severity
severities = severity_info ∷ severity_low ∷ severity_medium ∷ severity_high ∷ severity_critical ∷ []

-- `Severity.Rank`, plus one: an unknown severity has 0 where the source has -1. The source only
-- compares ranks with one another and with 0.
unfoldable pub rank : Severity → ℕ
rank s = position severities s

-- `Severity.Valid`.
unfoldable pub is_severity : Severity → Bool
unfolding rank
is_severity s = not (rank s == 0)

abbrev pub Time : Type 0
Time = ℕ

-- The zero `time.Time`: January 1 of year 1.
unfoldable pub zero_time : Time
zero_time = 2 ^ 63 * 1_000_000_000

pub record ProcessExec : Type 0 where
  pub filename : Bytes
  pub argv : List Bytes
  pub argv_truncated : Bool

pub record FileOpen : Type 0 where
  pub path : Bytes
  pub flags : List Bytes

pub record PrivilegeEscalation : Type 0 where
  pub syscall : Bytes
  pub old_uid : ℕ
  pub new_uid : ℕ

pub record NetworkConnect : Type 0 where
  pub family : Bytes
  pub address : Bytes
  pub port : ℕ
  pub fd : ℤ

pub record Ptrace : Type 0 where
  pub request : Bytes
  pub request_code : ℤ
  pub target_pid : ℤ
  pub addr : Bytes

-- `Data`: the payloads that implement the interface.
pub data Payload : Type 0 where
  process_exec : ProcessExec → Payload
  file_open : FileOpen → Payload
  privilege_escalation : PrivilegeEscalation → Payload
  network_connect : NetworkConnect → Payload
  ptrace : Ptrace → Payload

pub record Process : Type 0 where
  pub pid : ℤ
  pub ppid : ℤ
  pub uid : ℕ
  pub gid : ℕ
  pub comm : Bytes
  pub cgroup_id : ℕ

pub record Pod : Type 0 where
  pub uid : Bytes
  pub name : Bytes
  pub namespace : Bytes

pub record Container : Type 0 where
  pub id : Bytes
  pub runtime : Bytes
  pub name : Bytes
  pub pod : Option Pod

pub record AuditEvent : Type 0 where
  pub id : Bytes
  pub kind : Kind
  pub time : Time
  pub node : Bytes
  pub severity : Severity
  pub process : Process
  pub container : Option Container
  pub payload : Option Payload

-- The `Kind` methods of the payloads.
unfoldable pub payload_kind : Payload → Kind
payload_kind (process_exec _) = kind_process_exec
payload_kind (file_open _) = kind_file_open
payload_kind (privilege_escalation _) = kind_privilege_escalation
payload_kind (network_connect _) = kind_network_connect
payload_kind (ptrace _) = kind_ptrace
