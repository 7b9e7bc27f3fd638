-- ===== src/Fixer/Rules/Plans.antt =====
-- The plans of internal/fixer/rules.go on events that internal/events accepts.
use aegis_ebpf.Base.{
  ℕ, ◌≡◌, ◌≢◌, refl, ◌∙◌, ap, Bool, true, false, List, [], ◌∷◌, map, all, Option, none, some, arith,
  Bytes, codes, All, ok, Bool-cases, inl, inr, ◌=b◌, =b_iff,
}
use aegis_ebpf.Events.Types.{Container, AuditEvent}
use aegis_ebpf.Events.Accepted.{validate_iff}
use aegis_ebpf.Events.Containers.{IsContainer}
use aegis_ebpf.Events.Patterns.{is_dns_label_iff}
use aegis_ebpf.Events.Validate.{is_dns_label, label_rest, validate}
use aegis_ebpf.Go.Decimal.{is_digit}
use aegis_ebpf.Fixer.Operation.{Operation, ends_in_selector}
use aegis_ebpf.Fixer.Path.RoundTrip.{parse_path-string}
use aegis_ebpf.Fixer.Path.WellFormed.{IsName, IsSelector, IsSegment}
use aegis_ebpf.Fixer.Path.{
  Selector, select_none, select_all, select_match, Segment, FieldPath, path_string, segments_string,
  segment_string, selector_string, parse_path, is_name_byte, not_bracket,
}
use aegis_ebpf.Fixer.Rules.{
  plan, aim, target, default_rules, fix_non_root, fix_no_escalation, fix_drop_all, fix_read_only,
}

-- A path that `compile` accepts.
abbrev pub Compiles : Operation → Type 0
Compiles op = (path : FieldPath) × (parse_path op.path ≡ ok path) × (ends_in_selector path ≡ false)

abbrev plain_segment : Bytes → Segment
plain_segment key = record { key = key; sel = select_none }

-- An event whose container, if it has one, has no name or a name that `Container.validate` accepts.
abbrev pub HasValidName : Option Container → Type 0
HasValidName none = Unit
HasValidName (some c) = (c.name ≢ []) → is_dns_label c.name ≡ true

-- The bytes that a key or a container name may hold.
all-All : (test : ℕ → Bool) (s : Bytes) → all test s ≡ true → All (λ c. test c ≡ true) s
all-All test [] h = tt
all-All test (c ∷ s) h = ground (arith, all-All test s)

rest-not_bracket : (s : Bytes) → label_rest s ≡ true → All (λ c. not_bracket c ≡ true) s
unfolding label_rest
rest-not_bracket [] h = tt
rest-not_bracket (c ∷ []) h = ground arith
rest-not_bracket (c ∷ d ∷ s) h = ground (arith, rest-not_bracket (d ∷ s))

label-not_bracket : (s : Bytes) → is_dns_label s ≡ true → All (λ c. not_bracket c ≡ true) s
unfolding is_dns_label
label-not_bracket [] h = tt
label-not_bracket (c ∷ s) h = ground (arith, rest-not_bracket s)

abbrev container_segment : Selector → Segment
container_segment sel = record { key = codes "containers"; sel = sel }

named-IsSelector :
    (name : Bytes)
    → name ≢ []
    → is_dns_label name ≡ true
    → IsSelector (select_match (codes "name") name)
unfolding is_name_byte is_digit
named-IsSelector name ne label =
    (((cc), all-All is_name_byte (codes "name") refl), refl, ne, label-not_bracket name label)

-- The target of a plan is the text of one segment.
target-string :
    (c : Option Container)
    → HasValidName c
    → (sel : Selector) × (target c ≡ segment_string (container_segment sel)) × IsSelector sel
unfolding selector_string
target-string none v = (select_all, refl, tt)
target-string (some c) v = elim (Bool-cases (c.name =b [])) [
  | inl unnamed ↦ (select_all, rw unnamed, tt)
  | inr name ↦
      let ne : c.name ≢ [] = λ e. ground (arith, name, =b_iff c.name []) in
      (select_match (codes "name") c.name, rw name, named-IsSelector c.name ne (v ne))
]

ends_plain :
    (keys : List Bytes) (seg : Segment)
    → keys ≢ []
    → ends_in_selector (seg ∷ map plain_segment keys) ≡ false
ends_plain [] seg ne = absurd (ne refl)
ends_plain (k ∷ []) seg ne = refl
ends_plain (k ∷ l ∷ keys) seg ne = ends_plain (l ∷ keys) (plain_segment k) (cc)

plain-IsSegment : (keys : List Bytes) → All IsName keys → All IsSegment (map plain_segment keys)
plain-IsSegment [] h = tt
plain-IsSegment (k ∷ keys) h = ((h.0, tt), plain-IsSegment keys h.1)

containers-IsName : IsName (codes "containers")
unfolding is_name_byte is_digit
containers-IsName = ((cc), all-All is_name_byte (codes "containers") refl)

-- An operation on plain keys, aimed at a container.
aim-Compiles :
    (c : Option Container) (op : Operation) (key : Bytes) (keys : List Bytes)
    → HasValidName c
    → All IsName (key ∷ keys)
    → op.path ≡ path_string (map plain_segment (key ∷ keys))
    → Compiles (aim (target c) op)
unfolding path_string segments_string
aim-Compiles c op key keys v names e =
    let (sel, aimed, good) = target-string c v in
    let path : FieldPath = container_segment sel ∷ map plain_segment (key ∷ keys) in
    (
      path,
      ap parse_path (cc (aimed, e))
          ∙ parse_path-string path
              ((cc), ((containers-IsName, good), plain-IsSegment (key ∷ keys) names)),
      ends_plain (key ∷ keys) (container_segment sel) (cc),
    )

literal-IsName : (c : ℕ) (s : Bytes) → all is_name_byte (c ∷ s) ≡ true → IsName (c ∷ s)
literal-IsName c s h = ((cc), all-All is_name_byte (c ∷ s) h)

-- Validation bounds the name of a container.
pub IsContainer-HasValidName : (c : Option Container) → IsContainer c → HasValidName c
IsContainer-HasValidName none h = tt
IsContainer-HasValidName (some c) (_, _, inl none_given, _) = λ ne. absurd (ne none_given)
IsContainer-HasValidName (some c) (_, _, inr (_, label), _) =
    λ ne. (is_dns_label_iff c.name).1 label

-- The plans of the default rules, for an event whose container has a valid name.
pub named_plans-Compiles :
    (ev : AuditEvent)
    → HasValidName ev.container
    → All (λ r. All Compiles (plan r ev)) default_rules
unfolding plan path_string segments_string selector_string is_name_byte is_digit
named_plans-Compiles ev v = (
  (security fix_non_root (codes "runAsNonRoot") [] (literal-IsName _ _ refl, tt) refl, tt),
  (
    (
      security fix_no_escalation (codes "allowPrivilegeEscalation") [] (literal-IsName _ _ refl, tt)
          refl,
      (
        security fix_drop_all (codes "capabilities") (codes "drop" ∷ [])
            (literal-IsName _ _ refl, (literal-IsName _ _ refl, tt)) refl,
        tt,
      ),
    ),
    (
      (
        security fix_read_only (codes "readOnlyRootFilesystem") [] (literal-IsName _ _ refl, tt)
            refl,
        tt,
      ),
      tt,
    ),
  ),
)
  where
    security :
        (op : Operation) (key : Bytes) (keys : List Bytes)
        → All IsName (key ∷ keys)
        → op.path ≡ path_string (map plain_segment (codes "securityContext" ∷ key ∷ keys))
        → Compiles (aim (target ev.container) op)
    security op key keys names e =
        aim-Compiles ev.container op (codes "securityContext") (key ∷ keys) v
          (literal-IsName _ _ refl, names) e

-- Every path of every plan of the default rules parses and ends in a field name, for each event
-- that validation accepts: whatever name its container has, no plan is refused for its paths.
default_plans-Compiles :
    (ev : AuditEvent) → validate ev ≡ [] → All (λ r. All Compiles (plan r ev)) default_rules
default_plans-Compiles ev h =
    named_plans-Compiles ev
      (IsContainer-HasValidName ev.container ((validate_iff ev).0 h).container_ok)
