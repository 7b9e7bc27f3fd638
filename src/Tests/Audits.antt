-- ===== src/Tests/Audits.antt =====
-- Validation of internal/events/events.go, and the plans of internal/fixer/rules.go.
use aegis_ebpf.Base.{◌=b◌, ◌≡◌, ◌↔◌, refl, [], ◌∷◌}
use aegis_ebpf.Events.Accepted.{IsAccepted, validate_iff}
use aegis_ebpf.Events.Validate.{
  validate, validate_open, payload_mismatch, length_in, validate_container, valid_container_id,
  is_dns_label, label_rest, validate_pod, validate_data, validate_payload, validate_flags,
}
use aegis_ebpf.Events.Types.{is_kind, zero_time, payload_kind}
use aegis_ebpf.Go.Text.{contains, rune_count}
use aegis_ebpf.Tests.Samples.{file_event, mismatched_event}

validate_iff_example : (validate file_event ≡ []) ↔ IsAccepted file_event
validate_iff_example = validate_iff file_event

pub file_event-valid : validate file_event ≡ []
unfolding validate is_kind contains ◌=b◌ zero_time length_in rune_count validate_container
    valid_container_id is_dns_label label_rest validate_pod validate_data payload_kind
    validate_payload validate_open validate_flags
file_event-valid = refl

pub mismatched_event-invalid : validate mismatched_event ≡ payload_mismatch ∷ []
unfolding validate is_kind contains ◌=b◌ zero_time length_in rune_count validate_container
    valid_container_id is_dns_label label_rest validate_pod validate_data payload_kind
mismatched_event-invalid = refl
