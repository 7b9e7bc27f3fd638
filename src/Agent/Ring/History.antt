-- ===== src/Agent/Ring/History.antt =====
-- The ring of internal/agent/agent.go against the whole history of stored events.
use Prim.Native.Nat.{min}
use aegis_ebpf.Base.{
  ℕ, zero, suc, ◌+◌, ◌%◌, ◌≤◌, ◌<◌, ◌≡◌, ◌≢◌, refl, sym, ◌∙◌, ap, true, false, List, [], ◌∷◌, ◌++◌,
  append-nil, append_assoc, arith, length, set, length-set, take, if◌then◌else◌, Bool-cases, inl,
  inr, length-replicate, ℤ, pos, negsuc, filter, length-append,
}
use aegis_ebpf.Agent.Ring.Slots.{
  slot_newest, slot_older, slot_ne_head, slot_at-set_self, slot_at-set_ne,
}
use aegis_ebpf.Agent.Ring.{slot_at, slot, store, EventFilter, keeps, has_room, events_from, events}
use aegis_ebpf.Agent.State.{Agent, Config, or_default, zero_event, new}
use aegis_ebpf.Events.Types.{AuditEvent}

-- `h` holds every event stored so far, newest first; the ring holds the latest of them.
pub record Tracks (a : Agent) (h : List AuditEvent) : Type 0 where
  pub head_lt : a.head < length a.ring
  pub stored_is : a.stored ≡ min (length h) (length a.ring)
  pub window :
      (i : ℕ) → i < a.stored → slot_at a.ring (slot (length a.ring) a.head (i + 1)) ≡ slot_at h i

or_default-pos : (n : ℤ) → 0 < or_default n
or_default-pos (pos zero) = omega arith
or_default-pos (pos (suc n)) = omega arith
or_default-pos (negsuc n) = omega arith

-- `New` starts with an empty history.
pub new-Tracks : (cfg : Config) → Tracks (new cfg) []
unfolding new
new-Tracks cfg = record {
  head_lt = omega (
    arith,
    length-replicate (or_default cfg.max_events) zero_event,
    or_default-pos cfg.max_events,
  );
  stored_is = omega arith;
  window = λ i h. absurd (omega arith);
}

pub succ : (i : ℕ) → suc i ≡ i + 1
succ i = omega arith

-- The window after a store into the slot at `head`.
window-set :
    (ring h : List AuditEvent) (head stored : ℕ) (ev : AuditEvent)
    → head < length ring
    → stored ≤ length ring
    → ((i : ℕ) → i < stored → slot_at ring (slot (length ring) head (i + 1)) ≡ slot_at h i)
    → (i : ℕ) → i < stored + 1
    → i < length ring
    → slot_at (set ring head ev) (slot (length ring) ((head + 1) % length ring) (i + 1))
      ≡ slot_at (ev ∷ h) i
window-set ring h head stored ev hl sl w zero lt lc =
    ap (slot_at (set ring head ev)) (slot_newest (length ring) head hl)
    ∙ slot_at-set_self ring head ev hl
window-set ring h head stored ev hl sl w (suc i) lt lc =
    ap (slot_at (set ring head ev)) (slot_older (length ring) head (suc i) hl (omega arith) lc)
    ∙ slot_at-set_ne ring head (slot (length ring) head (suc i)) ev
        (λ e. slot_ne_head (length ring) head (suc i) hl (omega arith) lc (sym e))
    ∙ (ap (λ n. slot_at ring (slot (length ring) head n)) (succ i) ∙ w i (omega arith))

pub store-Tracks :
    {a : Agent} {h : List AuditEvent} (ev : AuditEvent) → Tracks a h → Tracks (store a ev) (ev ∷ h)
unfolding store
store-Tracks {a} {h} ev t = record {
  head_lt = omega (arith, length-set a.ring a.head ev, t.head_lt);
  stored_is = ground (arith, length-set a.ring a.head ev, t.stored_is);
  window = λ i lt.
      ap (λ n. slot_at (set a.ring a.head ev) (slot n ((a.head + 1) % length a.ring) (i + 1)))
        (length-set a.ring a.head ev)
      ∙ window-set a.ring h a.head a.stored ev t.head_lt (omega (arith, t.stored_is)) t.window i
          (ground (arith, lt)) (ground (arith, lt, t.stored_is));
}

plus_zero : (i : ℕ) → i ≡ i + 0
plus_zero i = omega arith

shift : (i j : ℕ) → i + 1 + j ≡ i + suc j
shift i j = omega arith

-- The loop of `Events` on the events of the window, as a list.
scan : EventFilter → List AuditEvent → List AuditEvent → List AuditEvent
scan f [] out = out
scan f (ev ∷ evs) out =
    let rest = scan f evs (if keeps f ev then out ++ ev ∷ [] else out) in
    if has_room f.limit (length out) then rest else out

events_from-scan :
    (a : Agent) (f : EventFilter) (g : List AuditEvent) (left i : ℕ) (out : List AuditEvent)
    → length g ≡ left
    → ((j : ℕ) → j < left → slot_at a.ring (slot (length a.ring) a.head (i + j)) ≡ slot_at g j)
    → events_from a f left i out ≡ scan f g out
unfolding events_from scan
events_from-scan a f [] zero i out e w = refl
events_from-scan a f [] (suc left) i out e w = absurd (omega arith)
events_from-scan a f (ev ∷ g) zero i out e w = absurd (omega arith)
events_from-scan a f (ev ∷ g) (suc left) i out e w =
    let read = λ (n : ℕ). slot_at a.ring (slot (length a.ring) a.head n) in
    let e0 : read i ≡ ev = ap read (plus_zero i) ∙ w 0 (omega arith) in
    ap
      (λ x.
        if has_room f.limit (length out)
        then events_from a f left (i + 1) (if keeps f x then out ++ x ∷ [] else out)
        else out)
      e0
    ∙ ap (λ r. if has_room f.limit (length out) then r else out)
        (events_from-scan a f g left (i + 1) (if keeps f ev then out ++ ev ∷ [] else out)
          (omega arith) (λ j lt. ap read (shift i j) ∙ w (suc j) (omega arith)))

-- At most `limit` events; 0 is no limit.
abbrev pub capped : ℕ → List AuditEvent → List AuditEvent
capped zero evs = evs
capped (suc n) evs = take (suc n) evs

scan-unlimited :
    (f : EventFilter) (evs out : List AuditEvent)
    → f.limit ≡ 0
    → scan f evs out ≡ out ++ filter (keeps f) evs
unfolding scan
scan-unlimited f [] out e = sym (append-nil out)
scan-unlimited f (ev ∷ evs) out e = ground (
  arith,
  scan-unlimited f evs out,
  scan-unlimited f evs (out ++ ev ∷ []),
  append_assoc out (ev ∷ []) (filter (keeps f) evs),
)

scan-limited :
    (f : EventFilter) (evs out : List AuditEvent) (room : ℕ)
    → f.limit ≢ 0
    → f.limit ≡ length out + room
    → scan f evs out ≡ out ++ take room (filter (keeps f) evs)
unfolding scan
scan-limited f [] out zero ne e = sym (append-nil out)
scan-limited f [] out (suc room) ne e = sym (append-nil out)
scan-limited f (ev ∷ evs) out zero ne e =
    let full : has_room f.limit (length out) ≡ false = ground (arith, ne, e) in
    rw full (sym (append-nil out))
scan-limited f (ev ∷ evs) out (suc room) ne e =
    let free : has_room f.limit (length out) ≡ true = ground (arith, ne, e) in
    rw free (elim (Bool-cases (keeps f ev)) [
      | inl k ↦ rw k (
          scan-limited f evs (out ++ ev ∷ []) room ne
            (omega (arith, e, length-append out (ev ∷ [])))
          ∙ append_assoc out (ev ∷ []) (take room (filter (keeps f) evs)))
      | inr k ↦ rw k (scan-limited f evs out (suc room) ne e)
    ])

scan-capped :
    (f : EventFilter) (evs : List AuditEvent)
    → scan f evs [] ≡ capped f.limit (filter (keeps f) evs)
scan-capped f evs = of_limit f.limit refl
  where
    of_limit : (n : ℕ) → f.limit ≡ n → scan f evs [] ≡ capped n (filter (keeps f) evs)
    of_limit zero e = scan-unlimited f evs [] e
    of_limit (suc n) e =
        scan-limited f evs [] (suc n) (λ z. absurd (omega (arith, e, z))) (omega (arith, e))

length-take : (n : ℕ) (h : List AuditEvent) → n ≤ length h → length (take n h) ≡ n
length-take zero h le = refl
length-take (suc n) [] le = absurd (omega arith)
length-take (suc n) (ev ∷ h) le = ap suc (length-take n h (omega arith))

slot_at-take : (n : ℕ) (h : List AuditEvent) (j : ℕ) → j < n → slot_at h j ≡ slot_at (take n h) j
slot_at-take zero h j lt = absurd (omega arith)
slot_at-take (suc n) [] j lt = refl
slot_at-take (suc n) (ev ∷ h) zero lt = refl
slot_at-take (suc n) (ev ∷ h) (suc j) lt = slot_at-take n h j (omega arith)

one_more : (j : ℕ) → 1 + j ≡ j + 1
one_more j = omega arith

-- `Events` answers with the newest events that the filter keeps, at most `limit` of them, among
-- the events that the ring still holds: for an agent whose ring tracks the history `h`.
pub events_lem :
    (a : Agent) (h : List AuditEvent) (f : EventFilter)
    → Tracks a h
    → events a f ≡ capped f.limit (filter (keeps f) (take (min (length h) (length a.ring)) h))
unfolding events
events_lem a h f t =
    let read = λ (n : ℕ). slot_at a.ring (slot (length a.ring) a.head n) in
    let bound : a.stored ≤ length h = omega (arith, t.stored_is) in
    rw (sym t.stored_is) (
      events_from-scan a f (take a.stored h) a.stored 1 [] (length-take a.stored h bound)
        (λ j lt. ap read (one_more j) ∙ t.window j lt ∙ slot_at-take a.stored h j lt)
      ∙ scan-capped f (take a.stored h))
