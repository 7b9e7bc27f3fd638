-- ===== src/Events/Accepted.antt =====
-- What `Validate` of internal/events/events.go lets through.
use aegis_ebpf.Base.{
  ℕ, zero, suc, ℤ, pos, negsuc, codes, sym, ◌⊎◌, ◌≤◌, ◌≡◌, ◌≢◌, ◌↔◌, inl, inr, refl, ap, ◌∙◌, true,
  false, [], Option, none, some, ◌==◌, ◌=b◌, =b_iff, arith, Bool-cases, below_one, is_negative,
}
use aegis_ebpf.Events.Types.{
  Kind, is_kind, zero_time, Payload, process_exec, file_open, privilege_escalation, network_connect,
  ptrace, payload_kind, AuditEvent,
}
use aegis_ebpf.Events.Validate.{
  event_checks, validate_payload, validate_data, validate, bad_kind, no_time, bad_node, bad_pid,
  bad_ppid, bad_comm,
}
use aegis_ebpf.Go.Text.{contains, rune_count}
use aegis_ebpf.Events.Containers.{IsContainer, validate_container_iff}
use aegis_ebpf.Events.Flags.{quiet, passed, join_iff, length_in_iff}
use aegis_ebpf.Events.Payloads.{IsSound, validate_payload_iff}

-- The five kinds of api/openapi.yaml.
abbrev pub IsKind : Kind → Type 0
IsKind k =
    (k ≡ codes "process_exec")
    ⊎ (k ≡ codes "file_open")
    ⊎ (k ≡ codes "privilege_escalation")
    ⊎ (k ≡ codes "network_connect")
    ⊎ (k ≡ codes "ptrace")

-- The kind that belongs to a payload.
abbrev pub IsOfKind : Kind → Payload → Type 0
IsOfKind k (process_exec _) = k ≡ codes "process_exec"
IsOfKind k (file_open _) = k ≡ codes "file_open"
IsOfKind k (privilege_escalation _) = k ≡ codes "privilege_escalation"
IsOfKind k (network_connect _) = k ≡ codes "network_connect"
IsOfKind k (ptrace _) = k ≡ codes "ptrace"

-- `n` or more.
abbrev pub AtLeast : ℕ → ℤ → Type 0
AtLeast n z = (m : ℕ) × (z ≡ pos m) × (n ≤ m)

-- What `Validate` guarantees of an event.
pub record IsAccepted (e : AuditEvent) : Type 0 where
  pub known_kind : IsKind e.kind
  pub time_set : e.time ≢ zero_time
  pub node_lo : 1 ≤ rune_count e.node
  pub node_hi : rune_count e.node ≤ 253
  pub pid_positive : AtLeast 1 e.process.pid
  pub ppid_natural : AtLeast 0 e.process.ppid
  pub comm_hi : rune_count e.process.comm ≤ 64
  pub container_ok : IsContainer e.container
  pub data_ok : (d : Payload) × (e.payload ≡ some d) × IsOfKind e.kind d × IsSound d

is_kind_iff : (k : Kind) → (is_kind k ≡ true) ↔ IsKind k
unfolding is_kind contains
is_kind_iff k = ground (
  arith,
  =b_iff (codes "process_exec") k,
  =b_iff (codes "file_open") k,
  =b_iff (codes "privilege_escalation") k,
  =b_iff (codes "network_connect") k,
  =b_iff (codes "ptrace") k,
)

payload_kind_iff : (k : Kind) (d : Payload) → (payload_kind d ≡ k) ↔ IsOfKind k d
unfolding payload_kind
payload_kind_iff k (process_exec _) = (λ e. sym e, λ e. sym e)
payload_kind_iff k (file_open _) = (λ e. sym e, λ e. sym e)
payload_kind_iff k (privilege_escalation _) = (λ e. sym e, λ e. sym e)
payload_kind_iff k (network_connect _) = (λ e. sym e, λ e. sym e)
payload_kind_iff k (ptrace _) = (λ e. sym e, λ e. sym e)

below_one_iff : (z : ℤ) → (below_one z ≡ false) ↔ AtLeast 1 z
below_one_iff (pos zero) = (λ h. absurd (cc), λ (m, e, le). absurd (none_below m e le))
  where
    none_below : (m : ℕ) → pos 0 ≡ pos m → 1 ≤ m → ⊥
    none_below m e le = let same : 0 ≡ m = cc in omega (arith, same, le)
below_one_iff (pos (suc n)) = (λ _. (suc n, refl, omega arith), λ _. refl)
below_one_iff (negsuc n) = (λ h. absurd (cc), λ (m, e, _). absurd (cc))

is_negative_iff : (z : ℤ) → (is_negative z ≡ false) ↔ AtLeast 0 z
is_negative_iff (pos n) = (λ _. (n, refl, omega arith), λ _. refl)
is_negative_iff (negsuc n) = (λ h. absurd (cc), λ (m, e, _). absurd (cc))

data_iff :
    (k : Kind) (p : Option Payload)
    → is_kind k ≡ true
    → (validate_data k p ≡ []) ↔ ((d : Payload) × (p ≡ some d) × IsOfKind k d × IsSound d)
unfolding validate_data
data_iff k none known = (λ h. absurd (ground arith), λ (d, e, _, _). absurd (cc))
data_iff k (some d) known = elim (Bool-cases (payload_kind d =b k)) [
  | inl same ↦ (
    λ h. (
      d,
      refl,
      (payload_kind_iff k d).0 ((=b_iff (payload_kind d) k).0 same),
      (validate_payload_iff d).0 (rw same at h),
    ),
    λ (d', e, k', v). rw same (ap validate_payload (some_eq e) ∙ (validate_payload_iff d').1 v),
  )
  | inr other ↦ (
    λ h. absurd (let h' = rw other at h in cc),
    λ (d', e, k', _). absurd (
        ground (
          arith,
          other,
          =b_iff (payload_kind d) k,
          ap payload_kind (some_eq e) ∙ (payload_kind_iff k d').1 k',
        )),
  )
]
  where
    some_eq : {a b : Payload} → some a ≡ some b → a ≡ b
    some_eq e = cc

-- `Validate` reports nothing exactly for an event of one of the five kinds, with a time, whose node has 1 to
-- 253 characters, whose process has a positive ID, a natural parent's ID and a name of 64 characters at most,
-- whose container and pod, if given, keep to their patterns, values and lengths, where an empty field other
-- than the container's ID counts as absent, and whose payload belongs to the kind and is sound. The patterns,
-- values and lengths are written out; characters are counted as `rune_count` does, and an address is one that
-- `parse_addr` reads.
pub validate_iff : (e : AuditEvent) → (validate e ≡ []) ↔ IsAccepted e
unfolding validate
validate_iff e = (sound, complete)
  where
    is_unset : (e.time == zero_time) ≡ false → e.time ≢ zero_time
    is_unset t = ground arith

    is_set : e.time ≢ zero_time → (e.time == zero_time) ≡ false
    is_set t = ground arith

    sound : validate e ≡ [] → IsAccepted e
    sound h =
        let (kind, (time, (node, (pid, (ppid, (comm, (container, (payload, _)))))))) =
          (join_iff (event_checks e)).0 h in
        let known = (passed _ bad_kind).0 kind in
        let len = (length_in_iff e.node 1 253).0 ((passed _ bad_node).0 node) in
        record {
          known_kind = (is_kind_iff e.kind).0 known;
          time_set = is_unset ((quiet _ no_time).0 time);
          node_lo = len.0;
          node_hi = len.1;
          pid_positive = (below_one_iff e.process.pid).0 ((quiet _ bad_pid).0 pid);
          ppid_natural = (is_negative_iff e.process.ppid).0 ((quiet _ bad_ppid).0 ppid);
          comm_hi = ((length_in_iff e.process.comm 0 64).0 ((passed _ bad_comm).0 comm)).1;
          container_ok = (validate_container_iff e.container).0 container;
          data_ok = (data_iff e.kind e.payload known).0 payload;
        }

    complete : IsAccepted e → validate e ≡ []
    complete a = (join_iff (event_checks e)).1 (
      (passed _ bad_kind).1 ((is_kind_iff e.kind).1 a.known_kind),
      (
        (quiet _ no_time).1 (is_set a.time_set),
        (
          (passed _ bad_node).1 ((length_in_iff e.node 1 253).1 (a.node_lo, a.node_hi)),
          (
            (quiet _ bad_pid).1 ((below_one_iff e.process.pid).1 a.pid_positive),
            (
              (quiet _ bad_ppid).1 ((is_negative_iff e.process.ppid).1 a.ppid_natural),
              (
                (passed _ bad_comm).1
                    ((length_in_iff e.process.comm 0 64).1 (omega arith, a.comm_hi)),
                (
                  (validate_container_iff e.container).1 a.container_ok,
                  (
                    (data_iff e.kind e.payload ((is_kind_iff e.kind).1 a.known_kind)).1 a.data_ok,
                    tt,
                  ),
                ),
              ),
            ),
          ),
        ),
      ),
    )
