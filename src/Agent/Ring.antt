-- ===== src/Agent/Ring.antt =====
-- internal/agent/agent.go: the ring of recent events and its index.
pub mod Slots
pub mod History
pub mod Lookup
pub mod Entries
use aegis_ebpf.Base.Maps.{find, insert, erase, bytes_key}
use aegis_ebpf.Base.{
  ℕ, zero, suc, ◌+◌, ◌-◌, ◌%◌, Bool, true, false, not, ◌&&◌, ◌||◌, List, [], ◌∷◌, ◌++◌, Option,
  none, some, Bytes, length, set, ltb, leb, ◌==◌, ◌=b◌, if◌then◌else◌,
}
use aegis_ebpf.Agent.State.{Agent, zero_event}
use aegis_ebpf.Events.Types.{Kind, Severity, rank, Container, AuditEvent}

-- `ring[i]`. Every index that the code uses is below the length.
abbrev pub slot_at : List AuditEvent → ℕ → AuditEvent
slot_at [] i = zero_event
slot_at (ev ∷ ring) zero = ev
slot_at (ev ∷ ring) (suc i) = slot_at ring i

-- The event that the ring is about to lose leaves the index.
abbrev pub make_room : Bool → Agent → List (Bytes × ℕ)
make_room full a = if full then erase (slot_at a.ring a.head).id a.by_id else a.by_id

-- `storeLocked`.
unfoldable pub store : Agent → AuditEvent → Agent
store a ev =
    let full = a.stored == length a.ring in
    record a {
      stored = if full then a.stored else a.stored + 1;
      ring = set a.ring a.head ev;
      by_id = insert ev.id a.head (make_room full a);
      head = (a.head + 1) % length a.ring;
    }

-- `EventFilter`; a limit that is not positive is 0.
pub record EventFilter : Type 0 where
  pub kind : Kind
  pub min_severity : Severity
  pub container_id : Bytes
  pub limit : ℕ

abbrev pub in_container : Bytes → Option Container → Bool
in_container id none = false
in_container id (some c) = c.id =b id

-- The condition under which the loop of `Events` keeps an event: the negation of its `continue`.
unfoldable pub keeps : EventFilter → AuditEvent → Bool
keeps f ev = not (
    not (f.kind =b []) && not (ev.kind =b f.kind)
    || ltb (rank ev.severity) (rank f.min_severity)
    || not (f.container_id =b []) && not (in_container f.container_id ev.container))

-- `(a.head-i+len(a.ring))%len(a.ring)`, with the length added first.
abbrev pub slot : ℕ → ℕ → ℕ → ℕ
slot cap head i = (head + cap - i) % cap

-- The test of the loop on what is read so far.
abbrev pub has_room : ℕ → ℕ → Bool
has_room limit n = limit == 0 || ltb n limit

-- The loop of `Events` from round `i` on, with `left` rounds to go.
unfoldable pub events_from : Agent → EventFilter → ℕ → ℕ → List AuditEvent → List AuditEvent
events_from a f zero i out = out
events_from a f (suc left) i out =
    let ev = slot_at a.ring (slot (length a.ring) a.head i) in
    let rest = events_from a f left (i + 1) (if keeps f ev then out ++ ev ∷ [] else out) in
    if has_room f.limit (length out) then rest else out

-- `Events`.
unfoldable pub events : Agent → EventFilter → List AuditEvent
unfolding events_from
events a f = events_from a f a.stored 1 []

abbrev pub read_at : List AuditEvent → Option ℕ → Option AuditEvent
read_at ring none = none
read_at ring (some i) = some (slot_at ring i)

-- `Event`: `none` is `ErrNotFound`.
unfoldable pub event : Agent → Bytes → Option AuditEvent
event a id = read_at a.ring (find id a.by_id)
