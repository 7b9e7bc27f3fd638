-- ===== src/Agent/Ring/Entries.antt =====
-- `Event` of internal/agent/agent.go: the entries of the index against the history of stored events.
use mathlib.Core.Path.{subst}
use aegis_ebpf.Base.Maps.{find, bytes_key, find-erase}
use aegis_ebpf.Base.{
  ℕ, suc, ◌+◌, ◌-◌, ◌%◌, ◌≤◌, ◌<◌, ◌≡◌, ◌≢◌, ◌↔◌, inl, inr, refl, sym, ◌∙◌, ap, Bool, true, false,
  List, Option, none, some, Bytes, arith, length, set, length-set, ltb, ◌==◌, ◌=b◌, =b_iff, ==_iff,
  if◌then◌else◌, Bool-cases,
}
use aegis_ebpf.Agent.Ring.History.{Tracks, succ}
use aegis_ebpf.Agent.Ring.Slots.{slot_newest, slot_older, slot_oldest, slot_ne_head}
use aegis_ebpf.Agent.Ring.{slot_at, slot, make_room, read_at, event}
use aegis_ebpf.Agent.State.{Agent}
use aegis_ebpf.Events.Types.{AuditEvent}

-- `ev` is one of the events that the ring still holds.
abbrev pub IsLive : Agent → List AuditEvent → AuditEvent → Type 0
IsLive a h ev = (j : ℕ) × (j < a.stored) × (slot_at h j ≡ ev)

-- Each entry of the index points at a live event with its key, and each live event has its entry.
pub record Indexed (a : Agent) (h : List AuditEvent) : Type 0 where
  pub sound :
      (id : Bytes) (i : ℕ)
      → find id a.by_id ≡ some i
      → (j : ℕ) × (j < a.stored)
        × (i ≡ slot (length a.ring) a.head (j + 1))
        × ((slot_at h j).id ≡ id)
  pub complete :
      (j : ℕ)
      → j < a.stored
      → find (slot_at h j).id a.by_id ≡ some (slot (length a.ring) a.head (j + 1))

-- `Event` finds an event under an ID exactly when the ring still holds an event with that ID, and
-- it returns that event: for an agent whose ring and index follow the history `h`.
pub event_lem :
    (a : Agent) (h : List AuditEvent) (id : Bytes) (ev : AuditEvent)
    → Tracks a h
    → Indexed a h
    → (event a id ≡ some ev) ↔ (IsLive a h ev × (ev.id ≡ id))
unfolding event
event_lem a h id ev t x = (found (find id a.by_id) refl, live)
  where
    found_at :
        (i : ℕ) → find id a.by_id ≡ some i → slot_at a.ring i ≡ ev → IsLive a h ev × (ev.id ≡ id)
    found_at i o r =
        let (j, lt, ie, k) = x.sound id i o in
        let here : slot_at h j ≡ ev = sym (t.window j lt) ∙ ap (slot_at a.ring) (sym ie) ∙ r in
        ((j, lt, here), sym (ap (λ (y : AuditEvent). y.id) here) ∙ k)

    found :
        (o : Option ℕ)
        → find id a.by_id ≡ o
        → read_at a.ring o ≡ some ev
        → IsLive a h ev × (ev.id ≡ id)
    found none o e = absurd (cc)
    found (some i) o e = found_at i o (cc)

    live : IsLive a h ev × (ev.id ≡ id) → event a id ≡ some ev
    live ((j, lt, r), k) =
        let o : find id a.by_id ≡ some (slot (length a.ring) a.head (j + 1)) =
          subst (λ y. find y a.by_id ≡ some (slot (length a.ring) a.head (j + 1)))
            (ap (λ (y : AuditEvent). y.id) r ∙ k) (x.complete j lt) in
        rw o (ap some (t.window j lt ∙ r))

-- What is left of the index when room is made.
pub find-make_room :
    (a : Agent) (id : Bytes) (i : ℕ) (full : Bool)
    → find id (make_room full a) ≡ some i
    → (find id a.by_id ≡ some i) × (full ≡ true → (slot_at a.ring a.head).id ≢ id)
find-make_room a id i true e =
    ground (
      arith,
      find-erase (slot_at a.ring a.head).id id a.by_id,
      =b_iff (slot_at a.ring a.head).id id,
    )
find-make_room a id i false e = (e, λ z. absurd (cc))

pub make_room-find :
    (a : Agent) (id : Bytes) (i : ℕ) (full : Bool)
    → find id a.by_id ≡ some i
    → (full ≡ true → (slot_at a.ring a.head).id ≢ id)
    → find id (make_room full a) ≡ some i
make_room-find a id i true e ne = ground (
  arith,
  ne refl,
  find-erase (slot_at a.ring a.head).id id a.by_id,
  =b_iff (slot_at a.ring a.head).id id,
)
make_room-find a id i false e ne = e

-- The event that a full ring loses is the last of the window.
oldest-window :
    (a : Agent) (h : List AuditEvent) (j : ℕ)
    → Tracks a h
    → j + 1 ≡ length a.ring
    → j < a.stored
    → slot_at a.ring a.head ≡ slot_at h j
oldest-window a h j t e lt =
    ap (slot_at a.ring) (
      sym (
        ap (slot (length a.ring) a.head) e
        ∙ slot_oldest (length a.ring) a.head t.head_lt (omega (arith, e))))
    ∙ t.window j lt

pub next_slot :
    (a : Agent) (h : List AuditEvent) (ev : AuditEvent) (j : ℕ)
    → Tracks a h
    → j + 1 < length a.ring
    → slot (length (set a.ring a.head ev)) ((a.head + 1) % length a.ring) (suc j + 1)
      ≡ slot (length a.ring) a.head (j + 1)
next_slot a h ev j t lt =
    ap (λ (n : ℕ). slot n ((a.head + 1) % length a.ring) (suc j + 1)) (length-set a.ring a.head ev)
    ∙ ap (λ (n : ℕ). slot (length a.ring) ((a.head + 1) % length a.ring) (n + 1)) (succ j)
    ∙ slot_older (length a.ring) a.head (j + 1) t.head_lt (omega arith) lt

pub first_slot :
    (a : Agent) (h : List AuditEvent) (ev : AuditEvent)
    → Tracks a h
    → slot (length (set a.ring a.head ev)) ((a.head + 1) % length a.ring) (0 + 1) ≡ a.head
first_slot a h ev t =
    ap (λ (n : ℕ). slot n ((a.head + 1) % length a.ring) 1) (length-set a.ring a.head ev)
    ∙ slot_newest (length a.ring) a.head t.head_lt

-- An older event of the window whose ID is not the one that leaves is not the last one.
pub stays :
    (a : Agent) (h : List AuditEvent) (j : ℕ)
    → Tracks a h
    → j < a.stored
    → ((a.stored == length a.ring) ≡ true → (slot_at a.ring a.head).id ≢ (slot_at h j).id)
    → j + 1 < length a.ring
stays a h j t lt ne = elim (Bool-cases (ltb (j + 1) (length a.ring))) [
  | inl e ↦ ground (arith, e)
  | inr e ↦
      let last : j + 1 ≡ length a.ring = ground (arith, e, t.stored_is, lt) in
      let full : (a.stored == length a.ring) ≡ true = ground (arith, last, t.stored_is, lt) in
      absurd (ne full (ap (λ (y : AuditEvent). y.id) (oldest-window a h j t last lt)))
]

pub room_after :
    (stored cap j : ℕ)
    → j < stored
    → j + 1 < cap
    → suc j < (if stored == cap then stored else stored + 1)
room_after stored cap j lt lc = ground (arith, lt, lc)

pub room_first : (stored cap : ℕ) → 0 < cap → 0 < (if stored == cap then stored else stored + 1)
room_first stored cap pos = ground (arith, pos)

pub before :
    (stored cap j : ℕ)
    → stored ≤ cap
    → suc j < (if stored == cap then stored else stored + 1)
    → (j < stored) × (j + 1 < cap)
before stored cap j le lt = ground (arith, le, lt)

same_entry :
    (p q : Bytes) (m : List (Bytes × ℕ)) (i j : ℕ)
    → find p m ≡ some i
    → find q m ≡ some j
    → p ≡ q
    → i ≡ j
same_entry p q m i j e f same = cc

pub absent_differs :
    (p q : Bytes) (m : List (Bytes × ℕ)) (j : ℕ)
    → find p m ≡ none
    → find q m ≡ some j
    → (p =b q) ≡ false
absent_differs p q m j e f = elim (Bool-cases (p =b q)) [
  | inl same ↦ absurd (let eq = (=b_iff p q).0 same in cc)
  | inr other ↦ other
]

-- The ID that leaves a full ring is not that of another event of the window.
pub leaves :
    (a : Agent) (h : List AuditEvent) (j : ℕ)
    → Tracks a h
    → Indexed a h
    → j + 1 < length a.ring
    → j < a.stored
    → (a.stored == length a.ring) ≡ true
    → (slot_at a.ring a.head).id ≢ (slot_at h j).id
leaves a h j t x lc lt full e =
    let cap = length a.ring in
    let is_full : a.stored ≡ cap = ground (arith, ==_iff a.stored cap, full) in
    let out =
      oldest-window a h (cap - 1) t (omega (arith, t.head_lt))
        (omega (arith, t.head_lt, is_full)) in
    let entry = x.complete (cap - 1) (omega (arith, t.head_lt, is_full)) in
    slot_ne_head cap a.head (j + 1) t.head_lt (omega arith) lc (
      same_entry (slot_at h j).id (slot_at h (cap - 1)).id a.by_id (slot cap a.head (j + 1))
        (slot cap a.head (cap - 1 + 1)) (x.complete j lt) entry
        (sym e ∙ ap (λ (y : AuditEvent). y.id) out)
      ∙ ap (slot cap a.head) (omega (arith, t.head_lt))
      ∙ slot_oldest cap a.head t.head_lt (omega (arith, t.head_lt)))

-- `store` keeps the index right when the new event's ID is not in it.
