-- ===== src/Events/Decode.antt =====
-- internal/events/events.go: `UnmarshalJSON`. What `json.Unmarshal` does is a parameter.
pub mod Payloads
use aegis_ebpf.Base.{
  ℕ, pos, ◌≡◌, ◌≢◌, ◌⊎◌, inl, inr, refl, sym, ap, ◌∙◌, Bool, true, false, ◌||◌, List, [], ◌∷◌,
  Option, none, some, Bytes, codes, Result, ok, err, ◌>>=◌, arith, ◌=b◌, =b_iff, Bool-cases,
  if◌then◌else◌,
}
use aegis_ebpf.Events.Types.{
  Kind, kind_process_exec, kind_file_open, kind_privilege_escalation, kind_network_connect,
  kind_ptrace, kinds, is_kind, Payload, process_exec, file_open, privilege_escalation,
  network_connect, ptrace, AuditEvent, payload_kind,
}
use aegis_ebpf.Go.Text.{contains}

-- `json.Unmarshal` into the members but "data", with the text of "data", which is empty if it is missing; and
-- into a payload.
pub record Json : Type 0 where
  pub into_aux : Bytes → Result Bytes (AuditEvent × Bytes)
  pub into_payload : Payload → Bytes → Result Bytes Payload

-- `newData`.
unfoldable pub new_data : Kind → Option Payload
new_data k =
    if k =b kind_process_exec
    then some (process_exec (record { filename = []; argv = []; argv_truncated = false }))
    else if k =b kind_file_open
    then some (file_open (record { path = []; flags = [] }))
    else if k =b kind_privilege_escalation
    then some (privilege_escalation (record { syscall = []; old_uid = 0; new_uid = 0 }))
    else if k =b kind_network_connect
    then some (network_connect (record { family = []; address = []; port = 0; fd = pos 0 }))
    else if k =b kind_ptrace
    then some
        (ptrace (record { request = []; request_code = pos 0; target_pid = pos 0; addr = [] }))
    else none

abbrev pub filled : AuditEvent → Result Bytes Payload → Result Bytes AuditEvent
filled ev (err why) = err why
filled ev (ok d) = ok (record ev { payload = some d })

-- The end of `UnmarshalJSON`, from `newData` on.
unfoldable pub decode_data : Json → AuditEvent → Bytes → Option Payload → Result Bytes AuditEvent
decode_data j ev raw none = ok (record ev { payload = none })
decode_data j ev raw (some d) =
    if raw =b [] || raw =b codes "null"
    then ok (record ev { payload = none })
    else filled ev (j.into_payload d raw)

unfoldable pub decode_event : Json → Result Bytes (AuditEvent × Bytes) → Result Bytes AuditEvent
decode_event j (err why) = err why
decode_event j (ok (ev, raw)) = decode_data j ev raw (new_data ev.kind)

-- `UnmarshalJSON`.
unfoldable pub unmarshal_json : Json → Bytes → Result Bytes AuditEvent
unmarshal_json j b = decode_event j (j.into_aux b)

-- Decoding into a value keeps its type.
abbrev pub KeepsType : Json → Type 0
KeepsType j =
    (d d' : Payload) (raw : Bytes) → j.into_payload d raw ≡ ok d' → payload_kind d' ≡ payload_kind d
