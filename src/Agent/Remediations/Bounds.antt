-- ===== src/Agent/Remediations/Bounds.antt =====
-- The bound on the open remediations of internal/agent/agent.go.
use mathlib.Core.Path.{subst}
use aegis_ebpf.Base.Maps.{
  find, insert, erase, bytes_key, pair_key, length-insert-le, length-insert_found,
  length-erase_found,
}
use aegis_ebpf.Base.{
  ℕ, ◌≤◌, ◌<◌, ◌≡◌, refl, sym, ◌∙◌, ap, [], ◌∷◌, Option, none, some, Bytes, arith, length, leb, ltb,
  if◌then◌else◌, ◌=b◌, =b_iff, Bool-cases, inl, inr,
}
use aegis_ebpf.Agent.Remediations.Oldest.{
  Rems, Keyed, IsHeld, HeldOption, NotBefore, AllHeld-Keyed, oldest_held, oldest_least,
}
use aegis_ebpf.Agent.Remediations.{
  drop, oldest_from, evict, see, see_at, opened, open_in, with_room, record_at, record_match,
}
use aegis_ebpf.Agent.State.{Agent, Remediation}
use aegis_ebpf.Events.Types.{Time, Container, AuditEvent}
use aegis_ebpf.Fixer.Rules.{Rule}

-- At most `max_rems` remediations are open, each under its own ID.
pub record Bounded (a : Agent) : Type 0 where
  pub bound : length a.rems ≤ a.max_rems
  pub positive : 0 < a.max_rems
  pub keyed : Keyed a.rems

Keyed-insert :
    (rem : Remediation) (id : Bytes) (m : Rems) → id ≡ rem.id → Keyed m → Keyed (insert id rem m)
unfolding insert
Keyed-insert rem id [] e h = (e, tt)
Keyed-insert rem id ((k, r) ∷ m) e (h, hs) = elim (Bool-cases (k =b id)) [
  | inl s ↦ rw s (e, hs)
  | inr s ↦ rw s (h, Keyed-insert rem id m e hs)
]

Keyed-erase : (id : Bytes) (m : Rems) → Keyed m → Keyed (erase id m)
unfolding erase
Keyed-erase id [] h = tt
Keyed-erase id ((k, r) ∷ m) (h, hs) = elim (Bool-cases (k =b id)) [
  | inl s ↦ rw s (Keyed-erase id m hs)
  | inr s ↦ rw s (h, Keyed-erase id m hs)
]

pub find-Keyed :
    (id : Bytes) (rem : Remediation) (m : Rems) → Keyed m → find id m ≡ some rem → id ≡ rem.id
unfolding find
find-Keyed id rem [] h e = absurd (cc)
find-Keyed id rem ((k, r) ∷ m) (h, hs) e = elim (Bool-cases (k =b id)) [
  | inl s ↦
      let same : r ≡ rem = ground (arith, s, e) in
      sym ((=b_iff k id).0 s) ∙ h ∙ ap (λ (q : Remediation). q.id) same
  | inr s ↦ find-Keyed id rem m hs (ground (arith, s, e))
]

oldest_from-some :
    (b : Remediation) (rems : Rems) → (old : Remediation) × (oldest_from (some b) rems ≡ some old)
unfolding oldest_from
oldest_from-some b [] = (b, refl)
oldest_from-some b ((_, rem) ∷ rems) =
    oldest_from-some (if ltb rem.last_seen b.last_seen then rem else b) rems

oldest_exists :
    (rems : Rems) → 0 < length rems → (old : Remediation) × (oldest_from none rems ≡ some old)
unfolding oldest_from
oldest_exists [] pos = absurd (omega arith)
oldest_exists ((_, rem) ∷ rems) pos = oldest_from-some rem rems

-- `evictRemediationLocked` drops a remediation of which none was last seen earlier, from both maps;
-- the agent has a remediation, and each stands under its own ID.
pub evict_lem :
    (a : Agent)
    → Keyed a.rems
    → 0 < length a.rems
    → (old : Remediation) × NotBefore old a.rems
      × ((evict a).rems ≡ erase old.id a.rems)
      × ((evict a).rem_for ≡ erase (old.rule.id, old.container.id) a.rem_for)
      × (length (evict a).rems < length a.rems)
unfolding evict drop
evict_lem a keyed pos =
    let (old, e) = oldest_exists a.rems pos in
    let held : IsHeld a.rems old =
      subst (HeldOption a.rems) e
        (oldest_held a.rems none a.rems tt (AllHeld-Keyed a.rems keyed)) in
    let (u, f) = held in
    let smaller = length-erase_found old.id a.rems u f in
    (
      old,
      (oldest_least none a.rems old e).1,
      ap (λ o. (drop a o).rems) e,
      ap (λ o. (drop a o).rem_for) e,
      subst (λ o. length (drop a o).rems < length a.rems) (sym e) smaller,
    )

drop-Keyed : (a : Agent) (o : Option Remediation) → Keyed a.rems → Keyed (drop a o).rems
unfolding drop
drop-Keyed a none h = h
drop-Keyed a (some old) h = Keyed-erase old.id a.rems h

drop-max : (a : Agent) (o : Option Remediation) → (drop a o).max_rems ≡ a.max_rems
unfolding drop
drop-max a none = refl
drop-max a (some old) = refl

-- An agent with room for one more.
record Roomy (a : Agent) : Type 0 where
  room : length a.rems < a.max_rems
  keyed : Keyed a.rems

evict-Roomy : (a : Agent) → Bounded a → 0 < length a.rems → Roomy (evict a)
unfolding evict
evict-Roomy a s pos =
    let (_, _, _, _, smaller) = evict_lem a s.keyed pos in
    record {
      room = omega (arith, smaller, s.bound, drop-max a (oldest_from none a.rems));
      keyed = drop-Keyed a (oldest_from none a.rems) s.keyed;
    }

with_room-Roomy : (a : Agent) → Bounded a → Roomy (with_room a)
with_room-Roomy a s = elim (Bool-cases (leb a.max_rems (length a.rems))) [
  | inl e ↦ rw e (evict-Roomy a s (ground (arith, e, s.positive)))
  | inr e ↦ rw e (record { room = ground (arith, e); keyed = s.keyed })
]

see_at-Bounded :
    (a : Agent) (id : Bytes) (o : Option Remediation) (at : Time)
    → find id a.rems ≡ o
    → Bounded a
    → Bounded (see_at a id o at)
unfolding see_at
see_at-Bounded a id none at e s = s
see_at-Bounded a id (some rem) at e s = record {
  bound = omega (arith, s.bound, length-insert_found id (see rem at) a.rems rem e);
  positive = s.positive;
  keyed = Keyed-insert (see rem at) id a.rems (find-Keyed id rem a.rems s.keyed e) s.keyed;
}

module _ (new_id : ℕ → Bytes) where
  open_in-Bounded :
      (a : Agent) (r : Rule) (ev : AuditEvent) (c : Container)
      → Roomy a
      → Bounded (open_in new_id a r ev c)
  unfolding open_in
  open_in-Bounded a r ev c s =
      let rem = opened new_id r ev c a.issued in
      record {
        bound = omega (arith, s.room, length-insert-le rem.id rem a.rems);
        positive = omega (arith, s.room);
        keyed = Keyed-insert rem rem.id a.rems refl s.keyed;
      }

  record_at-Bounded :
      (a : Agent) (r : Rule) (ev : AuditEvent) (c : Container) (o : Option Bytes)
      → Bounded a
      → Bounded (record_at new_id a r ev c o)
  unfolding record_at
  record_at-Bounded a r ev c none s = open_in-Bounded (with_room a) r ev c (with_room-Roomy a s)
  record_at-Bounded a r ev c (some id) s = see_at-Bounded a id (find id a.rems) ev.time refl s

  -- `recordLocked` keeps the agent within its bound, each remediation under its own ID.
  pub record_match-Bounded :
      (a : Agent) (r : Rule) (ev : AuditEvent) (c : Container)
      → Bounded a
      → Bounded (record_match new_id a r ev c)
  unfolding record_match
  record_match-Bounded a r ev c s = record_at-Bounded a r ev c (find (r.id, c.id) a.rem_for) s
