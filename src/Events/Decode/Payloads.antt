-- ===== src/Events/Decode/Payloads.antt =====
-- The payload that `UnmarshalJSON` of internal/events/events.go gives an event.
use aegis_ebpf.Base.{
  ◌≡◌, ◌⊎◌, inl, inr, refl, sym, ap, ◌∙◌, true, false, ◌||◌, [], Option, none, some, Bytes, codes,
  Result, ok, err, arith, ◌=b◌, =b_iff, Bool-cases,
}
use aegis_ebpf.Events.Types.{
  Kind, kind_process_exec, kind_file_open, kind_privilege_escalation, kind_network_connect,
  kind_ptrace, kinds, is_kind, Payload, AuditEvent, payload_kind,
}
use aegis_ebpf.Go.Text.{contains}
use aegis_ebpf.Events.Decode.{
  Json, new_data, filled, decode_data, decode_event, unmarshal_json, KeepsType,
}

new_data-none : (k : Kind) → new_data k ≡ none → is_kind k ≡ false
unfolding new_data is_kind contains
new_data-none k e = ground (
  arith,
  e,
  =b_iff k kind_process_exec,
  =b_iff k kind_file_open,
  =b_iff k kind_privilege_escalation,
  =b_iff k kind_network_connect,
  =b_iff k kind_ptrace,
  =b_iff kind_process_exec k,
  =b_iff kind_file_open k,
  =b_iff kind_privilege_escalation k,
  =b_iff kind_network_connect k,
  =b_iff kind_ptrace k,
)

known_exec : contains kinds kind_process_exec ≡ true
unfolding contains ◌=b◌
known_exec = refl

known_open : contains kinds kind_file_open ≡ true
unfolding contains ◌=b◌
known_open = refl

known_escalation : contains kinds kind_privilege_escalation ≡ true
unfolding contains ◌=b◌
known_escalation = refl

known_connect : contains kinds kind_network_connect ≡ true
unfolding contains ◌=b◌
known_connect = refl

known_ptrace : contains kinds kind_ptrace ≡ true
unfolding contains ◌=b◌
known_ptrace = refl

same_kind : (d d' : Payload) → some d ≡ some d' → payload_kind d' ≡ payload_kind d
same_kind d d' e = let same : d ≡ d' = cc in ap payload_kind (sym same)

-- A kind that is listed, and the payload that `newData` makes for it.
found :
    (x k : Kind) (d d' : Payload)
    → (k =b x) ≡ true
    → contains kinds x ≡ true
    → payload_kind d ≡ x
    → some d ≡ some d'
    → (payload_kind d' ≡ k) × (is_kind k ≡ true)
unfolding is_kind
found x k d d' e known kind made =
    let same = (=b_iff k x).0 e in
    (same_kind d d' made ∙ kind ∙ sym same, ap (contains kinds) same ∙ known)

new_data-some :
    (k : Kind) (d : Payload) → new_data k ≡ some d → (payload_kind d ≡ k) × (is_kind k ≡ true)
unfolding new_data payload_kind
new_data-some k d e = elim (Bool-cases (k =b kind_process_exec)) [
  | inl s ↦ found kind_process_exec k _ d s known_exec refl (rw s at e)
  | inr other1 ↦ elim (Bool-cases (k =b kind_file_open)) [
    | inl s ↦ found kind_file_open k _ d s known_open refl (rw (other1, s) at e)
    | inr other2 ↦ elim (Bool-cases (k =b kind_privilege_escalation)) [
      | inl s ↦
          found kind_privilege_escalation k _ d s known_escalation refl
            (rw (other1, other2, s) at e)
      | inr other3 ↦ elim (Bool-cases (k =b kind_network_connect)) [
        | inl s ↦
            found kind_network_connect k _ d s known_connect refl
              (rw (other1, other2, other3, s) at e)
        | inr other4 ↦ elim (Bool-cases (k =b kind_ptrace)) [
          | inl s ↦
              found kind_ptrace k _ d s known_ptrace refl
                (rw (other1, other2, other3, other4, s) at e)
          | inr other5 ↦
              let nothing : none ≡ some d = rw (other1, other2, other3, other4, other5) at e in
              absurd (cc)
        ]
      ]
    ]
  ]
]

-- What an event has as its payload: none, or one of its kind.
abbrev pub HasPayload : Kind → Bytes → Option Payload → Type 0
HasPayload k raw none = (is_kind k ≡ false) ⊎ ((raw =b [] || raw =b codes "null") ≡ true)
HasPayload k raw (some d) =
    (payload_kind d ≡ k) × (is_kind k ≡ true) × ((raw =b [] || raw =b codes "null") ≡ false)

abbrev Decodes : Result Bytes AuditEvent → AuditEvent → Bytes → Type 0
Decodes (err why) plain raw = Unit
Decodes (ok ev) plain raw =
    (ev ≡ record plain { payload = ev.payload }) × HasPayload plain.kind raw ev.payload

module _ (j : Json) (keeps : KeepsType j) where
  filled-Decodes :
      (plain : AuditEvent) (raw : Bytes) (d : Payload) (made : Result Bytes Payload)
      → payload_kind d ≡ plain.kind
      → is_kind plain.kind ≡ true
      → (raw =b [] || raw =b codes "null") ≡ false
      → j.into_payload d raw ≡ made
      → Decodes (filled plain made) plain raw
  filled-Decodes plain raw d (err why) kind known there out = tt
  filled-Decodes plain raw d (ok d') kind known there out =
      (refl, (keeps d d' raw out ∙ kind, known, there))

  decode_data-Decodes :
      (plain : AuditEvent) (raw : Bytes) (o : Option Payload)
      → new_data plain.kind ≡ o
      → Decodes (decode_data j plain raw o) plain raw
  unfolding decode_data
  decode_data-Decodes plain raw none e = (refl, inl (new_data-none plain.kind e))
  decode_data-Decodes plain raw (some d) e = elim (Bool-cases (raw =b [] || raw =b codes "null")) [
    | inl absent ↦ rw absent (refl, inr absent)
    | inr there ↦
        let (kind, known) = new_data-some plain.kind d e in
        rw there (filled-Decodes plain raw d (j.into_payload d raw) kind known there refl)
  ]

  -- An event that `UnmarshalJSON` decodes is what is decoded of its other members, with a payload of its
  -- kind if its kind is known and its data is there, and with none otherwise: for a decoder that keeps the
  -- type of the value that it decodes into.
  pub unmarshal_json_lem :
      (b raw : Bytes) (plain ev : AuditEvent)
      → j.into_aux b ≡ ok (plain, raw)
      → unmarshal_json j b ≡ ok ev
      → (ev ≡ record plain { payload = ev.payload }) × HasPayload plain.kind raw ev.payload
  unfolding unmarshal_json decode_event
  unmarshal_json_lem b raw plain ev read decoded =
      let got : decode_data j plain raw (new_data plain.kind) ≡ ok ev = rw read at decoded in
      rw got at (decode_data-Decodes plain raw (new_data plain.kind) refl)
