-- ===== src/Agent/Ingest/Severities.antt =====
-- The severity that the rules give an event in `Ingest` of internal/agent/agent.go.
use mathlib.Core.Path.{subst}
use aegis_ebpf.Base.{
  ℕ, ◌≤◌, ◌≡◌, ◌⊎◌, inl, inr, refl, ap, ◌∙◌, sym, List, [], ◌∷◌, Bytes, true, false, arith, All,
  ltb, Bool-cases, if◌then◌else◌,
}
use aegis_ebpf.Agent.Ingest.{raised, record_for, apply_rules}
use aegis_ebpf.Agent.State.{Agent}
use aegis_ebpf.Events.Types.{Severity, rank, AuditEvent}
use aegis_ebpf.Fixer.Rules.{
  Rule, default_rules, matches_root, matches_escalation, matches_system_write,
}

abbrev pub with_severity : Severity → AuditEvent → AuditEvent
with_severity s ev = record ev { severity = s }

-- The rule does not look at the severity, which `Ingest` changes as it goes.
abbrev pub IgnoresSeverity : Rule → Type 0
IgnoresSeverity r = (ev : AuditEvent) (s : Severity) → r.matches (with_severity s ev) ≡ r.matches ev

-- `s` is the severity of some rule that matches.
abbrev pub IsFromMatch : AuditEvent → Severity → List Rule → Type 0
IsFromMatch ev s [] = ⊥
IsFromMatch ev s (r ∷ rules) = ((r.matches ev ≡ true) × (s ≡ r.severity)) ⊎ IsFromMatch ev s rules

-- `s` is at least the severity of each rule that matches.
abbrev pub Covers : AuditEvent → Severity → List Rule → Type 0
Covers ev s [] = Unit
Covers ev s (r ∷ rules) = ((r.matches ev ≡ false) ⊎ (rank r.severity ≤ rank s)) × Covers ev s rules

raise : Rule → Severity → Severity
raise r s = if ltb (rank s) (rank r.severity) then r.severity else s

raised-raise :
    (r : Rule) (s : Severity) (ev : AuditEvent)
    → raised r (with_severity s ev) ≡ with_severity (raise r s) ev
unfolding raise
raised-raise r s ev = elim (Bool-cases (ltb (rank s) (rank r.severity))) [
  | inl e ↦ rw e
  | inr e ↦ rw e
]

raise_le :
    (r : Rule) (s : Severity) → (rank s ≤ rank (raise r s)) × (rank r.severity ≤ rank (raise r s))
unfolding raise
raise_le r s = elim (Bool-cases (ltb (rank s) (rank r.severity))) [
  | inl e ↦ rw e (ground (arith, e), ground (arith, e))
  | inr e ↦ rw e (ground (arith, e), ground (arith, e))
]

raise_is : (r : Rule) (s : Severity) → (raise r s ≡ s) ⊎ (raise r s ≡ r.severity)
unfolding raise
raise_is r s = elim (Bool-cases (ltb (rank s) (rank r.severity))) [
  | inl e ↦ inr (rw e)
  | inr e ↦ inl (rw e)
]

-- The highest severity of the event's own, `s`, and those of the rules that match it.
abbrev pub Peak : AuditEvent → Severity → List Rule → Severity → Type 0
Peak ev s rules out =
    (rank s ≤ rank out) × Covers ev out rules × ((out ≡ s) ⊎ IsFromMatch ev out rules)

Peak-match :
    (ev : AuditEvent) (s : Severity) (r : Rule) (rules : List Rule) (out : Severity)
    → r.matches ev ≡ true
    → Peak ev (raise r s) rules out
    → Peak ev s (r ∷ rules) out
Peak-match ev s r rules out e (le, covers, from) =
    let (left, right) = raise_le r s in
    (
      omega (arith, le, left),
      (inr (omega (arith, le, right)), covers),
      elim from [
        | inl same ↦ elim (raise_is r s) [
          | inl q ↦ inl (same ∙ q)
          | inr q ↦ inr (inl (e, same ∙ q))
        ]
        | inr f ↦ inr (inr f)
      ],
    )

Peak-skip :
    (ev : AuditEvent) (s : Severity) (r : Rule) (rules : List Rule) (out : Severity)
    → r.matches ev ≡ false
    → Peak ev s rules out
    → Peak ev s (r ∷ rules) out
Peak-skip ev s r rules out e (le, covers, from) =
    (le, (inl e, covers), elim from [ inl same ↦ inl same | inr f ↦ inr (inr f) ])

module _ (new_id : ℕ → Bytes) where
  apply_rules_match :
      (r : Rule) (rules : List Rule) (ev : AuditEvent) (a : Agent)
      → r.matches ev ≡ true
      → apply_rules new_id (r ∷ rules) ev a
        ≡ apply_rules new_id rules
            (raised r ev)
            (record_for new_id a r (raised r ev) (raised r ev).container)
  unfolding apply_rules
  apply_rules_match r rules ev a e = rw e

  apply_rules_skip :
      (r : Rule) (rules : List Rule) (ev : AuditEvent) (a : Agent)
      → r.matches ev ≡ false
      → apply_rules new_id (r ∷ rules) ev a ≡ apply_rules new_id rules ev a
  unfolding apply_rules
  apply_rules_skip r rules ev a e = rw e

  apply_rules_nil : (ev : AuditEvent) (a : Agent) → apply_rules new_id [] ev a ≡ (ev, a)
  unfolding apply_rules
  apply_rules_nil ev a = refl

  -- The loop over the rules gives the event the highest severity of its own and those of the rules
  -- that match it, whatever the order of the rules, when no rule looks at the severity.
  pub apply_rules-Peak :
      (rules : List Rule) (ev : AuditEvent) (s : Severity) (a : Agent)
      → All IgnoresSeverity rules
      → Peak ev s rules (apply_rules new_id rules (with_severity s ev) a).0.severity
  apply_rules-Peak [] ev s a i =
      subst (λ (p : AuditEvent × Agent). Peak ev s [] p.0.severity)
        (sym (apply_rules_nil (with_severity s ev) a)) (omega arith, tt, inl refl)
  apply_rules-Peak (r ∷ rules) ev s a (i, is) = elim (Bool-cases (r.matches ev)) [
    | inl e ↦
        subst (λ (p : AuditEvent × Agent). Peak ev s (r ∷ rules) p.0.severity)
          (sym (
            apply_rules_match r rules (with_severity s ev) a (i ev s ∙ e)
            ∙ ap
                (λ (x : AuditEvent).
                  apply_rules new_id rules x (record_for new_id a r x x.container))
                (raised-raise r s ev)))
          (Peak-match ev s r rules
            (apply_rules new_id rules (with_severity (raise r s) ev)
              (record_for new_id a r (with_severity (raise r s) ev) ev.container)).0.severity
            e
            (apply_rules-Peak rules ev (raise r s)
              (record_for new_id a r (with_severity (raise r s) ev) ev.container) is))
    | inr e ↦
        subst (λ (p : AuditEvent × Agent). Peak ev s (r ∷ rules) p.0.severity)
          (sym (apply_rules_skip r rules (with_severity s ev) a (i ev s ∙ e)))
          (Peak-skip ev s r rules (apply_rules new_id rules (with_severity s ev) a).0.severity e
            (apply_rules-Peak rules ev s a is))
  ]

-- The default rules do not look at the severity.
pub default_rules-IgnoreSeverity : All IgnoresSeverity default_rules
unfolding matches_root matches_escalation matches_system_write
default_rules-IgnoreSeverity = ((λ ev s. refl), ((λ ev s. refl), ((λ ev s. refl), tt)))
