-- ===== src/Agent/Ring/Lookup.antt =====
-- `Event` of internal/agent/agent.go: the index by ID against the history of stored events.
use aegis_ebpf.Agent.Ring.Entries.{
  Indexed, find-make_room, make_room-find, next_slot, first_slot, stays, room_after, room_first,
  before, absent_differs, leaves,
}
use aegis_ebpf.Base.Maps.{find, insert, bytes_key, insert_here, insert_elsewhere, insert_self}
use aegis_ebpf.Base.{
  ℕ, zero, suc, ◌+◌, ◌%◌, ◌<◌, ◌≡◌, inl, inr, sym, ◌∙◌, ap, Bool, false, List, ◌∷◌, none, some,
  Bytes, arith, length, set, ◌==◌, ◌=b◌, =b_iff, Bool-cases,
}
use aegis_ebpf.Agent.Ring.History.{Tracks}
use aegis_ebpf.Agent.Ring.{slot_at, slot, make_room, store}
use aegis_ebpf.Agent.State.{Agent}
use aegis_ebpf.Events.Types.{AuditEvent}

pub store-Indexed :
    (a : Agent) (h : List AuditEvent) (ev : AuditEvent)
    → find ev.id a.by_id ≡ none
    → Tracks a h
    → Indexed a h
    → Indexed (store a ev) (ev ∷ h)
unfolding store
store-Indexed a h ev fresh t x = record {
  sound = λ id i e. elim (Bool-cases (ev.id =b id)) [
    | inl same ↦ (
      0,
      room_first a.stored (length a.ring) (omega (arith, t.head_lt)),
      insert_here ev.id id a.head i (make_room full a) same e ∙ sym (first_slot a h ev t),
      ground (arith, same, =b_iff ev.id id),
    )
    | inr other ↦
        older_sound id i (sym (insert_elsewhere ev.id id a.head (make_room full a) other) ∙ e)
  ];
  complete = complete;
}
  where
    full : Bool
    full = a.stored == length a.ring

    older_sound :
        (id : Bytes) (i : ℕ)
        → find id (make_room full a) ≡ some i
        → (j : ℕ) × (j < (store a ev).stored)
          × (i ≡ slot (length (set a.ring a.head ev)) ((a.head + 1) % length a.ring) (j + 1))
          × ((slot_at (ev ∷ h) j).id ≡ id)
    older_sound id i e =
        let (was, ne) = find-make_room a id i full e in
        let (j, lt, ie, k) = x.sound id i was in
        let lc = stays a h j t lt (λ f q. ne f (q ∙ k)) in
        (suc j, room_after a.stored (length a.ring) j lt lc, ie ∙ sym (next_slot a h ev j t lc), k)

    complete :
        (j : ℕ)
        → j < (store a ev).stored
        → find (slot_at (ev ∷ h) j).id (insert ev.id a.head (make_room full a))
          ≡ some (slot (length (set a.ring a.head ev)) ((a.head + 1) % length a.ring) (j + 1))
    complete zero lt =
        insert_self ev.id a.head (make_room full a) ∙ ap some (sym (first_slot a h ev t))
    complete (suc j) lt =
        let (ls, lc) = before a.stored (length a.ring) j (omega (arith, t.stored_is)) lt in
        let is_new : (ev.id =b (slot_at h j).id) ≡ false =
          absent_differs ev.id (slot_at h j).id a.by_id (slot (length a.ring) a.head (j + 1)) fresh
            (x.complete j ls) in
        insert_elsewhere ev.id (slot_at h j).id a.head (make_room full a) is_new
        ∙ make_room-find a (slot_at h j).id (slot (length a.ring) a.head (j + 1)) full
            (x.complete j ls) (λ f. leaves a h j t x lc ls f)
        ∙ ap some (sym (next_slot a h ev j t lc))
