-- ===== src/Events/Payloads.antt =====
-- Which payloads the checks of internal/events/events.go let through.
use aegis_ebpf.Base.{
  ◌≤◌, ◌≡◌, ◌↔◌, ◌⊎◌, inl, inr, refl, false, not, ◌&&◌, [], ◌∷◌, Option, none, some, ◌=b◌, =b_iff,
  Bytes, codes, arith, Bool-cases, length,
}
use aegis_ebpf.Events.Flags.{IsOpen, validate_open_iff, length_in_iff, passed, quiet, join_iff}
use aegis_ebpf.Events.Patterns.{
  IsPtraceRequest, is_ptrace_request_iff, IsHexNumber, is_hex_number_iff,
}
use aegis_ebpf.Events.Types.{
  ProcessExec, PrivilegeEscalation, NetworkConnect, Ptrace, Payload, process_exec, file_open,
  privilege_escalation, network_connect, ptrace,
}
use aegis_ebpf.Events.Validate.{
  exec_checks, validate_exec, ptrace_checks, validate_escalation, family_case, validate_connect,
  validate_ptrace, validate_payload, bad_filename, long_argv, bad_syscall, bad_address,
  wrong_family, bad_request, bad_addr,
}
use aegis_ebpf.Go.Netip.{IpAddress, v4, v6, parse_addr}
use aegis_ebpf.Go.Text.{contains, rune_count}

-- The addresses of a family; one with a zone is of none.
abbrev pub OfFamily : Bytes → Option IpAddress → Type 0
OfFamily family none = ⊥
OfFamily family (some v4) = family ≡ codes "ipv4"
OfFamily family (some (v6 [])) = family ≡ codes "ipv6"
OfFamily family (some (v6 (_ ∷ _))) = ⊥

-- The payloads as api/openapi.yaml wants them.
abbrev pub IsSound : Payload → Type 0
IsSound (process_exec d) =
    ((1 ≤ rune_count d.filename) × (rune_count d.filename ≤ 4096)) × (length d.argv ≤ 256)
IsSound (file_open d) = IsOpen d
IsSound (privilege_escalation d) =
    (d.syscall ≡ codes "setuid")
    ⊎ ((d.syscall ≡ codes "setreuid") ⊎ (d.syscall ≡ codes "setresuid"))
IsSound (network_connect d) = OfFamily d.family (parse_addr d.address)
IsSound (ptrace d) = IsPtraceRequest d.request × IsHexNumber d.addr

validate_exec_iff : (d : ProcessExec) → (validate_exec d ≡ []) ↔ IsSound (process_exec d)
unfolding validate_exec
validate_exec_iff d = (
  λ h.
      let (name, (argv, _)) = (join_iff (exec_checks d)).0 h in
      (
        (length_in_iff d.filename 1 4096).0 ((passed _ bad_filename).0 name),
        ground (arith, (quiet _ long_argv).0 argv),
      ),
  λ h. (join_iff (exec_checks d)).1 (
    (passed _ bad_filename).1 ((length_in_iff d.filename 1 4096).1 h.0),
    ((quiet _ long_argv).1 (ground (arith, h.1)), tt),
  ),
)

validate_escalation_iff :
    (d : PrivilegeEscalation) → (validate_escalation d ≡ []) ↔ IsSound (privilege_escalation d)
unfolding validate_escalation contains
validate_escalation_iff d = (
  λ h. ground (
    arith,
    (passed _ bad_syscall).0 h,
    =b_iff (codes "setuid") d.syscall,
    =b_iff (codes "setreuid") d.syscall,
    =b_iff (codes "setresuid") d.syscall,
  ),
  λ h. (passed _ bad_syscall).1 (
      ground (
        arith,
        h,
        =b_iff (codes "setuid") d.syscall,
        =b_iff (codes "setreuid") d.syscall,
        =b_iff (codes "setresuid") d.syscall,
      )),
)

-- A family that is neither of the two has no address.
family_known :
    (family : Bytes) (o : Option IpAddress)
    → OfFamily family o
    → (not (family =b codes "ipv4") && not (family =b codes "ipv6")) ≡ false
family_known family none h = absurd h
family_known family (some v4) h = ground (arith, h, =b_iff family (codes "ipv4"))
family_known family (some (v6 [])) h = ground (arith, h, =b_iff family (codes "ipv6"))
family_known family (some (v6 (_ ∷ _))) h = absurd h

families_apart : ((codes "ipv4" =b codes "ipv6") ≡ false) × ((codes "ipv6" =b codes "ipv4") ≡ false)
unfolding ◌=b◌
families_apart = (refl, refl)

connect_iff :
    (family : Bytes) (o : Option IpAddress)
    → (not (family =b codes "ipv4") && not (family =b codes "ipv6")) ≡ false
    → (elim o [ none ↦ bad_address ∷ [] | some a ↦ family_case family a ] ≡ []) ↔ OfFamily family o
unfolding family_case
connect_iff family none k = (λ h. absurd (cc), λ h. absurd h)
connect_iff family (some v4) k = (
  λ h.
      let other = (quiet _ wrong_family).0 h in
      (=b_iff family (codes "ipv4")).0 (ground (arith, other, k)),
  λ e. (quiet _ wrong_family).1 (rw e families_apart.0),
)
connect_iff family (some (v6 [])) k = (
  λ h.
      let other = (quiet _ wrong_family).0 h in
      (=b_iff family (codes "ipv6")).0 (ground (arith, other, k)),
  λ e. (quiet _ wrong_family).1 (rw e families_apart.1),
)
connect_iff family (some (v6 (_ ∷ _))) k = (λ h. absurd (cc), λ h. absurd h)

validate_connect_iff :
    (d : NetworkConnect) → (validate_connect d ≡ []) ↔ IsSound (network_connect d)
unfolding validate_connect
validate_connect_iff d =
    elim (Bool-cases (not (d.family =b codes "ipv4") && not (d.family =b codes "ipv6"))) [
      | inl e ↦ rw e (
        λ h. absurd (cc),
        λ h. absurd (let k = family_known d.family (parse_addr d.address) h in cc),
      )
      | inr e ↦ rw e (connect_iff d.family (parse_addr d.address) e)
    ]

validate_ptrace_iff : (d : Ptrace) → (validate_ptrace d ≡ []) ↔ IsSound (ptrace d)
unfolding validate_ptrace
validate_ptrace_iff d = (
  λ h.
      let (request, (addr, _)) = (join_iff (ptrace_checks d)).0 h in
      (
        (is_ptrace_request_iff d.request).0 ((passed _ bad_request).0 request),
        (is_hex_number_iff d.addr).0 ((passed _ bad_addr).0 addr),
      ),
  λ h. (join_iff (ptrace_checks d)).1 (
    (passed _ bad_request).1 ((is_ptrace_request_iff d.request).1 h.0),
    ((passed _ bad_addr).1 ((is_hex_number_iff d.addr).1 h.1), tt),
  ),
)

pub validate_payload_iff : (d : Payload) → (validate_payload d ≡ []) ↔ IsSound d
unfolding validate_payload
validate_payload_iff (process_exec d) = validate_exec_iff d
validate_payload_iff (file_open d) = validate_open_iff d
validate_payload_iff (privilege_escalation d) = validate_escalation_iff d
validate_payload_iff (network_connect d) = validate_connect_iff d
validate_payload_iff (ptrace d) = validate_ptrace_iff d
