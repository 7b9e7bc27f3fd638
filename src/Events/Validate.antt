-- ===== src/Events/Validate.antt =====
-- internal/events/events.go: `Validate` and the payloads' checks. The error that `Validate` joins is
-- the list of its violations, in order; no violation is the nil error.
use aegis_ebpf.Base.{
  ℕ, zero, suc, Bool, true, false, not, ◌&&◌, ◌||◌, List, [], ◌∷◌, ◌++◌, Option, none, some, leb,
  ltb, ◌==◌, ◌=b◌, if◌then◌else◌, Bytes, codes, length, all, is_negative, below_one,
}
use aegis_ebpf.Events.Types.{
  Kind, is_kind, zero_time, ProcessExec, FileOpen, PrivilegeEscalation, NetworkConnect, Ptrace,
  Payload, process_exec, file_open, privilege_escalation, network_connect, ptrace, Pod, Container,
  AuditEvent, payload_kind,
}
use aegis_ebpf.Go.Netip.{IpAddress, v4, v6, parse_addr}
use aegis_ebpf.Go.Text.{rune_count, contains, strip_prefix}

pub data Violation : Type 0 where
  bad_kind no_time bad_node bad_pid bad_ppid bad_comm : Violation
  bad_container_id bad_runtime bad_container_name bad_pod_uid bad_pod_name bad_namespace : Violation
  no_payload payload_mismatch : Violation
  bad_filename long_argv bad_path no_flags : Violation
  unknown_flag repeated_flag : Bytes → Violation
  bad_syscall bad_family bad_address wrong_family bad_request bad_addr : Violation

-- One `if` of the source that appends an error.
abbrev pub fail_if : Bool → Violation → List Violation
fail_if true v = v ∷ []
fail_if false v = []

-- The errors in the order in which the source appends them.
abbrev pub join : List (List Violation) → List Violation
join [] = []
join (vs ∷ rest) = vs ++ join rest

unfoldable pub length_in : Bytes → ℕ → ℕ → Bool
length_in s lo hi = leb lo (rune_count s) && leb (rune_count s) hi

abbrev pub is_lower_hex : ℕ → Bool
is_lower_hex c = leb b'0' c && leb c b'9' || leb b'a' c && leb c b'f'

abbrev pub is_hex : ℕ → Bool
is_hex c = is_lower_hex c || leb b'A' c && leb c b'F'

-- `^[0-9a-f]{64}$`.
unfoldable pub valid_container_id : Bytes → Bool
valid_container_id id = length id == 64 && all is_lower_hex id

abbrev pub is_alphanumeric : ℕ → Bool
is_alphanumeric c = leb b'a' c && leb c b'z' || leb b'0' c && leb c b'9'

-- `[-a-z0-9]*[a-z0-9]`, or nothing.
unfoldable pub label_rest : Bytes → Bool
label_rest [] = true
label_rest (c ∷ []) = is_alphanumeric c
label_rest (c ∷ d ∷ s) = (is_alphanumeric c || c == b'-') && label_rest (d ∷ s)

-- `^[a-z0-9]([-a-z0-9]*[a-z0-9])?$`.
unfoldable pub is_dns_label : Bytes → Bool
is_dns_label [] = false
is_dns_label (c ∷ s) = is_alphanumeric c && label_rest s

-- `n` hexadecimal digits, and what the pattern wants behind them.
unfoldable pub hex_digits : ℕ → (Bytes → Bool) → Bytes → Bool
hex_digits zero next s = next s
hex_digits (suc n) next [] = false
hex_digits (suc n) next (c ∷ s) = is_hex c && hex_digits n next s

unfoldable pub dash : (Bytes → Bool) → Bytes → Bool
dash next [] = false
dash next (c ∷ s) = c == b'-' && next s

unfoldable pub is_end : Bytes → Bool
is_end [] = true
is_end (_ ∷ _) = false

-- `^[0-9a-fA-F]{8}-[0-9a-fA-F]{4}-[0-9a-fA-F]{4}-[0-9a-fA-F]{4}-[0-9a-fA-F]{12}$`.
unfoldable pub is_uuid : Bytes → Bool
unfolding hex_digits dash is_end
is_uuid =
    hex_digits 8 (
      dash (hex_digits 4 (dash (hex_digits 4 (dash (hex_digits 4 (dash (hex_digits 12 is_end))))))))

-- `^<prefix>[<test>]+$`.
unfoldable pub behind : Option Bytes → (ℕ → Bool) → Bool
behind none test = false
behind (some []) test = false
behind (some (c ∷ s)) test = test c && all test s

unfoldable pub is_ptrace_request : Bytes → Bool
unfolding behind strip_prefix
is_ptrace_request s = behind (strip_prefix (codes "PTRACE_") s) (λ c. leb b'A' c && leb c b'Z')

unfoldable pub is_hex_number : Bytes → Bool
unfolding behind strip_prefix
is_hex_number s = behind (strip_prefix (codes "0x") s) is_lower_hex

abbrev pub runtimes : List Bytes
runtimes = [] ∷ codes "docker" ∷ codes "containerd" ∷ codes "cri-o" ∷ codes "podman" ∷ []

abbrev pub pod_checks : Pod → List (List Violation)
pod_checks p =
    fail_if (not (p.uid =b []) && not (is_uuid p.uid)) bad_pod_uid
    ∷ fail_if (not (p.name =b []) && not (length_in p.name 1 253)) bad_pod_name
    ∷ fail_if (not (p.namespace =b []) && not (length_in p.namespace 1 63)) bad_namespace
    ∷ []

unfoldable pub validate_pod : Option Pod → List Violation
validate_pod none = []
validate_pod (some p) = join (pod_checks p)

abbrev pub container_checks : Container → List (List Violation)
container_checks c =
    fail_if (not (valid_container_id c.id)) bad_container_id
    ∷ fail_if (not (contains runtimes c.runtime)) bad_runtime
    ∷ fail_if (not (c.name =b []) && (ltb 63 (length c.name) || not (is_dns_label c.name)))
        bad_container_name
    ∷ validate_pod c.pod
    ∷ []

-- `Container.validate`, and nothing for no container.
unfoldable pub validate_container : Option Container → List Violation
validate_container none = []
validate_container (some c) = join (container_checks c)

abbrev pub exec_checks : ProcessExec → List (List Violation)
exec_checks d =
    fail_if (not (length_in d.filename 1 4096)) bad_filename
    ∷ fail_if (ltb 256 (length d.argv)) long_argv
    ∷ []

unfoldable pub validate_exec : ProcessExec → List Violation
validate_exec d = join (exec_checks d)

abbrev pub open_flags : List Bytes
open_flags =
    codes "O_RDONLY"
    ∷ codes "O_WRONLY"
    ∷ codes "O_RDWR"
    ∷ codes "O_CREAT"
    ∷ codes "O_TRUNC"
    ∷ codes "O_APPEND"
    ∷ []

-- The loop over the flags; `seen` holds the flags before.
unfoldable pub validate_flags : List Bytes → List Bytes → List Violation
validate_flags seen [] = []
validate_flags seen (f ∷ fs) =
    (if not (contains open_flags f)
      then unknown_flag f ∷ []
      else if contains seen f
      then repeated_flag f ∷ []
      else [])
    ++ validate_flags (f ∷ seen) fs

abbrev pub is_nil : List Bytes → Bool
is_nil [] = true
is_nil (_ ∷ _) = false

abbrev pub open_checks : FileOpen → List (List Violation)
open_checks d =
    fail_if (not (length_in d.path 1 4096)) bad_path
    ∷ fail_if (is_nil d.flags) no_flags
    ∷ validate_flags [] d.flags
    ∷ []

unfoldable pub validate_open : FileOpen → List Violation
validate_open d = join (open_checks d)

unfoldable pub validate_escalation : PrivilegeEscalation → List Violation
validate_escalation d =
    fail_if (not (contains (codes "setuid" ∷ codes "setreuid" ∷ codes "setresuid" ∷ []) d.syscall))
      bad_syscall

-- The last case of the switch of `NetworkConnect.validate`, on a parsed address.
unfoldable pub family_case : Bytes → IpAddress → List Violation
family_case family v4 = fail_if (family =b codes "ipv6") wrong_family
family_case family (v6 []) = fail_if (family =b codes "ipv4") wrong_family
family_case family (v6 (_ ∷ _)) = bad_address ∷ []

unfoldable pub validate_connect : NetworkConnect → List Violation
unfolding family_case
validate_connect d =
    if not (d.family =b codes "ipv4") && not (d.family =b codes "ipv6")
    then bad_family ∷ []
    else elim (parse_addr d.address) [ none ↦ bad_address ∷ [] | some a ↦ family_case d.family a ]

abbrev pub ptrace_checks : Ptrace → List (List Violation)
ptrace_checks d =
    fail_if (not (is_ptrace_request d.request)) bad_request
    ∷ fail_if (not (is_hex_number d.addr)) bad_addr
    ∷ []

unfoldable pub validate_ptrace : Ptrace → List Violation
validate_ptrace d = join (ptrace_checks d)

unfoldable pub validate_payload : Payload → List Violation
validate_payload (process_exec d) = validate_exec d
validate_payload (file_open d) = validate_open d
validate_payload (privilege_escalation d) = validate_escalation d
validate_payload (network_connect d) = validate_connect d
validate_payload (ptrace d) = validate_ptrace d

-- The switch of `Validate` on the payload.
unfoldable pub validate_data : Kind → Option Payload → List Violation
validate_data kind none = fail_if (is_kind kind) no_payload
validate_data kind (some d) =
    if not (payload_kind d =b kind) then payload_mismatch ∷ [] else validate_payload d

abbrev pub event_checks : AuditEvent → List (List Violation)
event_checks e =
    fail_if (not (is_kind e.kind)) bad_kind
    ∷ fail_if (e.time == zero_time) no_time
    ∷ fail_if (not (length_in e.node 1 253)) bad_node
    ∷ fail_if (below_one e.process.pid) bad_pid
    ∷ fail_if (is_negative e.process.ppid) bad_ppid
    ∷ fail_if (not (length_in e.process.comm 0 64)) bad_comm
    ∷ validate_container e.container
    ∷ validate_data e.kind e.payload
    ∷ []

-- `AuditEvent.Validate`.
unfoldable pub validate : AuditEvent → List Violation
validate e = join (event_checks e)
