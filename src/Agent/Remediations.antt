-- ===== src/Agent/Remediations.antt =====
-- internal/agent/agent.go: remediations.
pub mod Oldest
pub mod Bounds
pub mod Linked
pub mod Consistent
pub mod Planned
use aegis_ebpf.Base.Maps.{find, insert, erase, bytes_key, pair_key}
use aegis_ebpf.Base.{
  ℕ, ◌+◌, List, [], ◌∷◌, Option, none, some, Bytes, length, ltb, leb, if◌then◌else◌,
}
use aegis_ebpf.Agent.State.{Remediation, RemKey, Agent}
use aegis_ebpf.Events.Types.{Time, Container, AuditEvent}
use aegis_ebpf.Fixer.Rules.{Rule, plan}

abbrev pub rem_key : Remediation → RemKey
rem_key rem = (rem.rule.id, rem.container.id)

-- The loop of `evictRemediationLocked`.
unfoldable pub oldest_from : Option Remediation → List (Bytes × Remediation) → Option Remediation
oldest_from best [] = best
oldest_from none ((_, rem) ∷ rems) = oldest_from (some rem) rems
oldest_from (some old) ((_, rem) ∷ rems) =
    oldest_from (some (if ltb rem.last_seen old.last_seen then rem else old)) rems

unfoldable pub drop : Agent → Option Remediation → Agent
drop a none = a
drop a (some old) = record a { rems = erase old.id a.rems; rem_for = erase (rem_key old) a.rem_for }

-- `evictRemediationLocked`. The code calls it on a map that is not empty; on an empty one it panics.
unfoldable pub evict : Agent → Agent
unfolding drop oldest_from
evict a = drop a (oldest_from none a.rems)

-- The update of a remediation that is open already.
abbrev pub see : Remediation → Time → Remediation
see rem t = record rem {
  occurrences = rem.occurrences + 1;
  first_seen = if ltb t rem.first_seen then t else rem.first_seen;
  last_seen = if ltb rem.last_seen t then t else rem.last_seen;
}

unfoldable pub see_at : Agent → Bytes → Option Remediation → Time → Agent
see_at a id none t = a
see_at a id (some rem) t = record a { rems = insert id (see rem t) a.rems }

abbrev pub with_room : Agent → Agent
with_room a = if leb a.max_rems (length a.rems) then evict a else a

module _ (new_id : ℕ → Bytes) where
  unfoldable pub opened : Rule → AuditEvent → Container → ℕ → Remediation
  opened r ev c n = record {
    id = new_id n;
    rule = r;
    container = c;
    event_id = ev.id;
    occurrences = 1;
    first_seen = ev.time;
    last_seen = ev.time;
    operations = plan r ev;
  }

  -- A new remediation; `a` has room for it.
  unfoldable pub open_in : Agent → Rule → AuditEvent → Container → Agent
  unfolding opened
  open_in a r ev c =
      let rem = opened r ev c a.issued in
      record a {
        rems = insert rem.id rem a.rems;
        rem_for = insert (r.id, c.id) rem.id a.rem_for;
        issued = a.issued + 1;
      }

  unfoldable pub record_at : Agent → Rule → AuditEvent → Container → Option Bytes → Agent
  record_at a r ev c (some id) = see_at a id (find id a.rems) ev.time
  record_at a r ev c none = open_in (with_room a) r ev c

  -- `recordLocked` for the container `c` of `ev`.
  unfoldable pub record_match : Agent → Rule → AuditEvent → Container → Agent
  unfolding record_at see_at open_in
  record_match a r ev c = record_at a r ev c (find (r.id, c.id) a.rem_for)
