-- ===== src/Agent/Ring/Slots.antt =====
-- The slots of the ring of internal/agent/agent.go, by modular arithmetic on any capacity.
use native.Mathlib.Nat.{mod-eq_of_lt, mod-eq-sub-mod}
use aegis_ebpf.Base.{
  ℕ, zero, suc, ◌+◌, ◌-◌, ◌%◌, ◌≤◌, ◌<◌, ◌≡◌, ◌≢◌, ◌⊎◌, refl, ap, List, [], ◌∷◌, arith, length, set,
}
use aegis_ebpf.Agent.Ring.{slot, slot_at}
use aegis_ebpf.Events.Types.{AuditEvent}

module _ (cap : ℕ) where
  pub slot_below : (h i : ℕ) → h < cap → i ≤ h → 0 < i → slot cap h i ≡ h - i
  slot_below h i hc ih i0 = grind (arith, mod-eq_of_lt, mod-eq-sub-mod)

  pub slot_above : (h i : ℕ) → h < cap → h < i → i ≤ cap → slot cap h i ≡ h + cap - i
  slot_above h i hc ih ic = grind (arith, mod-eq_of_lt)

  pub next_head :
      (h : ℕ)
      → h < cap
      → ((h + 1 < cap) × ((h + 1) % cap ≡ h + 1)) ⊎ ((h + 1 ≡ cap) × ((h + 1) % cap ≡ 0))
  next_head h hc = grind (arith, mod-eq_of_lt, mod-eq-sub-mod)

  pub slot-lt : (h i : ℕ) → h < cap → slot cap h i < cap
  slot-lt h i hc = omega arith

  pub slot_newest : (h : ℕ) → h < cap → slot cap ((h + 1) % cap) 1 ≡ h
  slot_newest h hc =
      grind (arith, next_head h hc, slot_below ((h + 1) % cap) 1, slot_above ((h + 1) % cap) 1)

  pub slot_older :
      (h i : ℕ) → h < cap → 0 < i → i < cap → slot cap ((h + 1) % cap) (i + 1) ≡ slot cap h i
  slot_older h i hc i0 ic = ground (
    arith,
    next_head h hc,
    slot_below ((h + 1) % cap) (i + 1),
    slot_above ((h + 1) % cap) (i + 1),
    slot_below h i,
    slot_above h i,
  )

  pub slot_ne_head : (h i : ℕ) → h < cap → 0 < i → i < cap → slot cap h i ≢ h
  slot_ne_head h i hc i0 ic = ground (arith, slot_below h i, slot_above h i)

  pub slot_oldest : (h : ℕ) → h < cap → 0 < cap → slot cap h cap ≡ h
  slot_oldest h hc c0 = ground (arith, slot_below h cap, slot_above h cap)

  pub slot_injective :
      (h i j : ℕ)
      → h < cap
      → 0 < i
      → i ≤ cap
      → 0 < j
      → j ≤ cap
      → slot cap h i ≡ slot cap h j
      → i ≡ j
  slot_injective h i j hc i0 ic j0 jc e =
      ground (arith, slot_below h i, slot_above h i, slot_below h j, slot_above h j)

pub slot_at-set_self :
    (r : List AuditEvent) (i : ℕ) (v : AuditEvent) → i < length r → slot_at (set r i v) i ≡ v
slot_at-set_self [] i v h = elim h [ ]
slot_at-set_self (x ∷ r) zero v h = refl
slot_at-set_self (x ∷ r) (suc i) v h = slot_at-set_self r i v (omega arith)

pub slot_at-set_ne :
    (r : List AuditEvent) (i j : ℕ) (v : AuditEvent) → i ≢ j → slot_at (set r i v) j ≡ slot_at r j
slot_at-set_ne [] i j v h = refl
slot_at-set_ne (x ∷ r) zero zero v h = absurd (h refl)
slot_at-set_ne (x ∷ r) zero (suc j) v h = refl
slot_at-set_ne (x ∷ r) (suc i) zero v h = refl
slot_at-set_ne (x ∷ r) (suc i) (suc j) v h = slot_at-set_ne r i j v (λ e. h (ap suc e))
