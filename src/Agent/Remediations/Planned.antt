-- ===== src/Agent/Remediations/Planned.antt =====
-- The operations of the remediations of internal/agent/agent.go come from the plans of its rules.
use mathlib.Core.Path.{subst}
use aegis_ebpf.Base.Maps.{
  find, bytes_key, pair_key, insert, find-erase, insert_here, insert_elsewhere,
}
use aegis_ebpf.Base.{
  ℕ, ◌≡◌, refl, sym, ◌∙◌, List, Option, none, some, Bytes, arith, Bool, true, false, Bool-cases,
  inl, inr, length, leb, if◌then◌else◌, ◌=b◌,
}
use aegis_ebpf.Agent.Remediations.{
  drop, oldest_from, evict, see, see_at, opened, open_in, with_room, record_at, record_match,
}
use aegis_ebpf.Agent.State.{Agent, Remediation}
use aegis_ebpf.Events.Types.{Time, Container, AuditEvent}
use aegis_ebpf.Fixer.Operation.{Operation}
use aegis_ebpf.Fixer.Rules.{Rule, plan}

module _ (P : List Operation → Type 0) where
  -- The operations of every remediation satisfy `P`.
  abbrev pub Planned : Agent → Type 0
  Planned a = (id : Bytes) (rem : Remediation) → find id a.rems ≡ some rem → P rem.operations

  drop-Planned : (a : Agent) (o : Option Remediation) → Planned a → Planned (drop a o)
  unfolding drop
  drop-Planned a none p = p
  drop-Planned a (some old) p =
      λ id rem e. p id rem (ground (arith, e, find-erase old.id id a.rems))

  with_room-Planned : (a : Agent) (full : Bool) → Planned a → Planned (if full then evict a else a)
  unfolding evict
  with_room-Planned a true p = drop-Planned a (oldest_from none a.rems) p
  with_room-Planned a false p = p

  insert-Planned :
      (a : Agent) (id : Bytes) (new : Remediation)
      → P new.operations
      → Planned a
      → (i : Bytes) (rem : Remediation) → find i (insert id new a.rems) ≡ some rem
      → P rem.operations
  insert-Planned a id new here p i rem f = elim (Bool-cases (id =b i)) [
    | inl same ↦
        subst (λ (r : Remediation). P r.operations) (sym (insert_here id i new rem a.rems same f))
          here
    | inr other ↦ p i rem (sym (insert_elsewhere id i new a.rems other) ∙ f)
  ]

  see_at-Planned :
      (a : Agent) (id : Bytes) (o : Option Remediation) (at : Time)
      → find id a.rems ≡ o
      → Planned a
      → Planned (see_at a id o at)
  unfolding see_at
  see_at-Planned a id none at e p = p
  see_at-Planned a id (some rem) at e p = insert-Planned a id (see rem at) (p id rem e) p

  -- `recordLocked` adds no operations but those of the rule's plan.
  pub record_match-Planned :
      (new_id : ℕ → Bytes) (a : Agent) (r : Rule) (ev : AuditEvent) (c : Container)
      → P (plan r ev)
      → Planned a
      → Planned (record_match new_id a r ev c)
  unfolding record_match record_at open_in opened
  record_match-Planned new_id a r ev c here p = recorded (find (r.id, c.id) a.rem_for)
    where
      with_space : Planned (with_room a)
      with_space = with_room-Planned a (leb a.max_rems (length a.rems)) p

      recorded : (o : Option Bytes) → Planned (record_at new_id a r ev c o)
      recorded (some id) = see_at-Planned a id (find id a.rems) ev.time refl p
      recorded none =
          insert-Planned (with_room a) (new_id (with_room a).issued)
            (opened new_id r ev c (with_room a).issued) here with_space

drop-rules : (a : Agent) (o : Option Remediation) → (drop a o).rules ≡ a.rules
unfolding drop
drop-rules a none = refl
drop-rules a (some old) = refl

with_room-rules : (a : Agent) (full : Bool) → (if full then evict a else a).rules ≡ a.rules
unfolding evict
with_room-rules a true = drop-rules a (oldest_from none a.rems)
with_room-rules a false = refl

-- `recordLocked` keeps the rules.
pub record_match-rules :
    (new_id : ℕ → Bytes) (a : Agent) (r : Rule) (ev : AuditEvent) (c : Container)
    → (record_match new_id a r ev c).rules ≡ a.rules
unfolding record_match record_at see_at open_in
record_match-rules new_id a r ev c = recorded (find (r.id, c.id) a.rem_for)
  where
    seen : (id : Bytes) (o : Option Remediation) → (see_at a id o ev.time).rules ≡ a.rules
    seen id none = refl
    seen id (some rem) = refl

    recorded : (o : Option Bytes) → (record_at new_id a r ev c o).rules ≡ a.rules
    recorded (some id) = seen id (find id a.rems)
    recorded none = with_room-rules a (leb a.max_rems (length a.rems))
