-- ===== src/Tests/Decoding.antt =====
-- An event whose data decodes as it is.
use aegis_ebpf.Base.{◌≡◌, refl, sym, ap, none, some, Bytes, codes, Result, ok, ◌=b◌}
use aegis_ebpf.Events.Decode.Payloads.{HasPayload, unmarshal_json_lem}
use aegis_ebpf.Events.Decode.{Json, new_data, decode_data, decode_event, unmarshal_json, KeepsType}
use aegis_ebpf.Events.Types.{
  Payload, AuditEvent, payload_kind, process_exec, file_open, privilege_escalation, network_connect,
  ptrace,
}
use aegis_ebpf.Tests.Samples.{file_event, opened_file}

abbrev bare_event : AuditEvent
bare_event = record file_event { payload = none }

abbrev keep_file : Payload → Bytes → Result Bytes Payload
keep_file (file_open d) raw = ok (file_open opened_file)
keep_file d raw = ok d

-- A decoder of one event.
abbrev decoder : Json
decoder = record { into_aux = λ b. ok (bare_event, codes "{}"); into_payload = keep_file }

abbrev read : Payload → Result Bytes Payload
read d = ok d

same_kind : (d d' : Payload) → read d ≡ read d' → payload_kind d' ≡ payload_kind d
same_kind d d' e = let same : d ≡ d' = cc in ap payload_kind (sym same)

decoder-KeepsType : KeepsType decoder
unfolding payload_kind
decoder-KeepsType (file_open d) d' raw e = same_kind (file_open opened_file) d' e
decoder-KeepsType (process_exec d) d' raw e = same_kind (process_exec d) d' e
decoder-KeepsType (privilege_escalation d) d' raw e = same_kind (privilege_escalation d) d' e
decoder-KeepsType (network_connect d) d' raw e = same_kind (network_connect d) d' e
decoder-KeepsType (ptrace d) d' raw e = same_kind (ptrace d) d' e

decodes : unmarshal_json decoder (codes "{}") ≡ ok file_event
unfolding unmarshal_json decode_event decode_data new_data ◌=b◌
decodes = refl

unmarshal_json_lem_example :
    (file_event ≡ record bare_event { payload = some (file_open opened_file) })
    × HasPayload bare_event.kind (codes "{}") (some (file_open opened_file))
unmarshal_json_lem_example =
    unmarshal_json_lem decoder decoder-KeepsType (codes "{}") (codes "{}") bare_event file_event
      refl decodes
