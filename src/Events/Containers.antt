-- ===== src/Events/Containers.antt =====
-- Which containers `Container.validate` of internal/events/events.go lets through.
use aegis_ebpf.Base.{
  ℕ, ◌≤◌, ◌≡◌, ◌↔◌, ◌⊎◌, refl, true, false, not, ◌&&◌, ◌||◌, [], Option, none, some, ◌=b◌, =b_iff,
  Bytes, codes, arith, length, ltb,
}
use aegis_ebpf.Events.Flags.{length_in_iff, passed, quiet, join_iff}
use aegis_ebpf.Events.Patterns.{
  IsContainerId, valid_container_id_iff, IsLabel, is_dns_label_iff, IsUuid, is_uuid_iff,
}
use aegis_ebpf.Events.Types.{Pod, Container}
use aegis_ebpf.Events.Validate.{
  length_in, runtimes, is_uuid, is_dns_label, pod_checks, validate_pod, container_checks,
  validate_container, bad_pod_uid, bad_pod_name, bad_namespace, bad_container_id, bad_runtime,
  bad_container_name,
}
use aegis_ebpf.Go.Text.{contains, rune_count}

-- A pod that the agent or the sensor has resolved in part or not at all.
abbrev pub IsPod : Option Pod → Type 0
IsPod none = Unit
IsPod (some p) =
    ((p.uid ≡ []) ⊎ IsUuid p.uid)
    × ((p.name ≡ []) ⊎ ((1 ≤ rune_count p.name) × (rune_count p.name ≤ 253)))
    × ((p.namespace ≡ []) ⊎ ((1 ≤ rune_count p.namespace) × (rune_count p.namespace ≤ 63)))

-- The values of `runtime` in api/openapi.yaml, or none.
abbrev pub IsRuntime : Bytes → Type 0
IsRuntime s =
    (s ≡ [])
    ⊎ (s ≡ codes "docker")
    ⊎ (s ≡ codes "containerd")
    ⊎ (s ≡ codes "cri-o")
    ⊎ (s ≡ codes "podman")

abbrev pub IsContainer : Option Container → Type 0
IsContainer none = Unit
IsContainer (some c) =
    IsContainerId c.id
    × IsRuntime c.runtime
    × ((c.name ≡ []) ⊎ ((length c.name ≤ 63) × IsLabel c.name))
    × IsPod c.pod

IsRuntime-iff : (s : Bytes) → (contains runtimes s ≡ true) ↔ IsRuntime s
unfolding contains
IsRuntime-iff s = ground (
  arith,
  =b_iff [] s,
  =b_iff (codes "docker") s,
  =b_iff (codes "containerd") s,
  =b_iff (codes "cri-o") s,
  =b_iff (codes "podman") s,
)

-- A check of the form `if s != "" && !test { fail }`.
uid_iff : (s : Bytes) → ((not (s =b []) && not (is_uuid s)) ≡ false) ↔ ((s ≡ []) ⊎ IsUuid s)
uid_iff s = ground (arith, =b_iff s [], is_uuid_iff s)

in_range_iff :
    (s : Bytes) (hi : ℕ)
    → ((not (s =b []) && not (length_in s 1 hi)) ≡ false)
      ↔ ((s ≡ []) ⊎ ((1 ≤ rune_count s) × (rune_count s ≤ hi)))
in_range_iff s hi = ground (arith, =b_iff s [], length_in_iff s 1 hi)

IsLabel-iff :
    (s : Bytes)
    → ((not (s =b []) && (ltb 63 (length s) || not (is_dns_label s))) ≡ false)
      ↔ ((s ≡ []) ⊎ ((length s ≤ 63) × IsLabel s))
IsLabel-iff s = ground (arith, =b_iff s [], is_dns_label_iff s)

validate_pod_iff : (p : Option Pod) → (validate_pod p ≡ []) ↔ IsPod p
unfolding validate_pod
validate_pod_iff none = (λ _. tt, λ _. refl)
validate_pod_iff (some p) = (
  λ h.
      let (uid, (name, (namespace, _))) = (join_iff (pod_checks p)).0 h in
      (
        (uid_iff p.uid).0 ((quiet _ bad_pod_uid).0 uid),
        (in_range_iff p.name 253).0 ((quiet _ bad_pod_name).0 name),
        (in_range_iff p.namespace 63).0 ((quiet _ bad_namespace).0 namespace),
      ),
  λ (uid, name, namespace). (join_iff (pod_checks p)).1 (
    (quiet _ bad_pod_uid).1 ((uid_iff p.uid).1 uid),
    (
      (quiet _ bad_pod_name).1 ((in_range_iff p.name 253).1 name),
      ((quiet _ bad_namespace).1 ((in_range_iff p.namespace 63).1 namespace), tt),
    ),
  ),
)

pub validate_container_iff : (c : Option Container) → (validate_container c ≡ []) ↔ IsContainer c
unfolding validate_container
validate_container_iff none = (λ _. tt, λ _. refl)
validate_container_iff (some c) = (
  λ h.
      let (id, (runtime, (name, (pod, _)))) = (join_iff (container_checks c)).0 h in
      (
        (valid_container_id_iff c.id).0 ((passed _ bad_container_id).0 id),
        (IsRuntime-iff c.runtime).0 ((passed _ bad_runtime).0 runtime),
        (IsLabel-iff c.name).0 ((quiet _ bad_container_name).0 name),
        (validate_pod_iff c.pod).0 pod,
      ),
  λ (id, runtime, name, pod). (join_iff (container_checks c)).1 (
    (passed _ bad_container_id).1 ((valid_container_id_iff c.id).1 id),
    (
      (passed _ bad_runtime).1 ((IsRuntime-iff c.runtime).1 runtime),
      (
        (quiet _ bad_container_name).1 ((IsLabel-iff c.name).1 name),
        ((validate_pod_iff c.pod).1 pod, tt),
      ),
    ),
  ),
)
