-- ===== src/Agent/Remediations/Oldest.antt =====
-- `evictRemediationLocked` of internal/agent/agent.go: the remediation that it drops.
use aegis_ebpf.Base.Maps.{find, bytes_key}
use aegis_ebpf.Base.{
  ◌≤◌, ◌≡◌, ap, List, [], ◌∷◌, Option, none, some, Bytes, arith, ltb, if◌then◌else◌, ◌=b◌, =b_iff,
  Bool-cases, inl, inr, Bool, true, false,
}
use aegis_ebpf.Agent.Remediations.{oldest_from}
use aegis_ebpf.Agent.State.{Remediation}

abbrev pub Rems : Type 0
Rems = List (Bytes × Remediation)

-- Each remediation stands under its own ID.
abbrev pub Keyed : Rems → Type 0
Keyed [] = Unit
Keyed ((k, rem) ∷ rems) = (k ≡ rem.id) × Keyed rems

-- There is an entry for the ID of `rem`.
abbrev pub IsHeld : Rems → Remediation → Type 0
IsHeld rems rem = (u : Remediation) × (find rem.id rems ≡ some u)

abbrev AllHeld : Rems → Rems → Type 0
AllHeld m [] = Unit
AllHeld m ((_, rem) ∷ rems) = IsHeld m rem × AllHeld m rems

abbrev pub HeldOption : Rems → Option Remediation → Type 0
HeldOption m none = Unit
HeldOption m (some rem) = IsHeld m rem

IsHeld-cons : (k : Bytes) (r rem : Remediation) (m : Rems) → IsHeld m rem → IsHeld ((k, r) ∷ m) rem
unfolding find
IsHeld-cons k r rem m (u, e) = elim (Bool-cases (k =b rem.id)) [
  | inl s ↦ (r, rw s)
  | inr s ↦ (u, rw s e)
]

IsHeld-here : (k : Bytes) (rem : Remediation) (m : Rems) → k ≡ rem.id → IsHeld ((k, rem) ∷ m) rem
unfolding find
IsHeld-here k rem m e = let s : (k =b rem.id) ≡ true = (=b_iff k rem.id).1 e in (rem, rw s)

AllHeld-cons :
    (k : Bytes) (r : Remediation) (m rems : Rems) → AllHeld m rems → AllHeld ((k, r) ∷ m) rems
AllHeld-cons k r m [] h = tt
AllHeld-cons k r m ((_, rem) ∷ rems) (h, hs) = (IsHeld-cons k r rem m h, AllHeld-cons k r m rems hs)

pub AllHeld-Keyed : (rems : Rems) → Keyed rems → AllHeld rems rems
AllHeld-Keyed [] h = tt
AllHeld-Keyed ((k, rem) ∷ rems) (e, h) =
    (IsHeld-here k rem rems e, AllHeld-cons k rem rems rems (AllHeld-Keyed rems h))

pick :
    (m : Rems) (old rem : Remediation) (b : Bool)
    → IsHeld m old
    → IsHeld m rem
    → IsHeld m (if b then rem else old)
pick m old rem true h k = k
pick m old rem false h k = h

pub oldest_held :
    (m : Rems) (best : Option Remediation) (rems : Rems)
    → HeldOption m best
    → AllHeld m rems
    → HeldOption m (oldest_from best rems)
unfolding oldest_from
oldest_held m none [] h hs = tt
oldest_held m (some b) [] h hs = h
oldest_held m none ((_, rem) ∷ rems) h (k, ks) = oldest_held m (some rem) rems k ks
oldest_held m (some old) ((_, rem) ∷ rems) h (k, ks) =
    oldest_held m (some (if ltb rem.last_seen old.last_seen then rem else old)) rems
      (pick m old rem (ltb rem.last_seen old.last_seen) h k) ks

abbrev pub NotBefore : Remediation → Rems → Type 0
NotBefore old [] = Unit
NotBefore old ((_, rem) ∷ rems) = (old.last_seen ≤ rem.last_seen) × NotBefore old rems

abbrev NotBeforeOption : Remediation → Option Remediation → Type 0
NotBeforeOption old none = Unit
NotBeforeOption old (some b) = old.last_seen ≤ b.last_seen

le_of_some : (b old : Remediation) → some b ≡ some old → old.last_seen ≤ b.last_seen
le_of_some b old e =
    let same : b ≡ old = cc in omega (arith, ap (λ (r : Remediation). r.last_seen) same)

earlier : Remediation → Remediation → Remediation
earlier b rem = if ltb rem.last_seen b.last_seen then rem else b

earlier_le :
    (b rem : Remediation)
    → ((earlier b rem).last_seen ≤ b.last_seen) × ((earlier b rem).last_seen ≤ rem.last_seen)
unfolding earlier
earlier_le b rem = elim (Bool-cases (ltb rem.last_seen b.last_seen)) [
  | inl e ↦ rw e (ground (arith, e), ground (arith, e))
  | inr e ↦ rw e (ground (arith, e), ground (arith, e))
]

-- What the loop ends with was not seen later than any remediation it has looked at.
pub oldest_least :
    (best : Option Remediation) (rems : Rems) (old : Remediation)
    → oldest_from best rems ≡ some old
    → NotBeforeOption old best × NotBefore old rems
unfolding oldest_from earlier
oldest_least none [] old e = absurd (cc)
oldest_least (some b) [] old e = (le_of_some b old e, tt)
oldest_least none ((_, rem) ∷ rems) old e =
    let (le, les) = oldest_least (some rem) rems old e in (tt, (le, les))
oldest_least (some b) ((_, rem) ∷ rems) old e =
    let (le, les) = oldest_least (some (earlier b rem)) rems old e in
    let (left, right) = earlier_le b rem in
    (omega (arith, le, left), (omega (arith, le, right), les))
