-- ===== src/Events/Patterns.antt =====
-- The texts that the patterns of internal/events/events.go match.
use aegis_ebpf.Base.{
  ℕ, zero, suc, ◌≤◌, ◌≡◌, ◌≢◌, ◌↔◌, ◌⊎◌, inl, inr, refl, sym, ap, ◌∙◌, Bool, true, false, ◌&&◌,
  List, [], ◌∷◌, ◌++◌, Bytes, codes, arith, All, all, length, leb, ◌==◌, Bool-cases,
}
use aegis_ebpf.Events.Validate.{
  is_lower_hex, is_hex, valid_container_id, label_rest, is_dns_label, hex_digits, dash, is_end,
  is_uuid, behind, is_ptrace_request, is_hex_number,
}
use aegis_ebpf.Go.Text.{strip_prefix}

abbrev pub IsDigit : ℕ → Type 0
IsDigit c = (b'0' ≤ c) × (c ≤ b'9')

abbrev pub IsLower : ℕ → Type 0
IsLower c = (b'a' ≤ c) × (c ≤ b'z')

abbrev pub IsUpper : ℕ → Type 0
IsUpper c = (b'A' ≤ c) × (c ≤ b'Z')

-- `[0-9a-f]` and `[0-9a-fA-F]`.
abbrev pub IsLowerHex : ℕ → Type 0
IsLowerHex c = IsDigit c ⊎ ((b'a' ≤ c) × (c ≤ b'f'))

abbrev pub IsHex : ℕ → Type 0
IsHex c = IsLowerHex c ⊎ ((b'A' ≤ c) × (c ≤ b'F'))

abbrev pub IsAlphanumeric : ℕ → Type 0
IsAlphanumeric c = IsLower c ⊎ IsDigit c

all_iff :
    (test : ℕ → Bool) (P : ℕ → Type 0)
    → ((c : ℕ) → (test c ≡ true) ↔ P c)
    → (s : Bytes) → (all test s ≡ true) ↔ All P s
all_iff test P h [] = (λ _. tt, λ _. refl)
all_iff test P h (c ∷ s) = ground (arith, h c, all_iff test P h s)

is_lower_hex_iff : (c : ℕ) → (is_lower_hex c ≡ true) ↔ IsLowerHex c
is_lower_hex_iff c = ground arith

is_hex_iff : (c : ℕ) → (is_hex c ≡ true) ↔ IsHex c
is_hex_iff c = ground arith

IsUpper-iff : (c : ℕ) → ((leb b'A' c && leb c b'Z') ≡ true) ↔ IsUpper c
IsUpper-iff c = ground arith

-- 64 lower case hexadecimal digits.
abbrev pub IsContainerId : Bytes → Type 0
IsContainerId id = (length id ≡ 64) × All IsLowerHex id

pub valid_container_id_iff : (id : Bytes) → (valid_container_id id ≡ true) ↔ IsContainerId id
unfolding valid_container_id
valid_container_id_iff id = ground (arith, all_iff is_lower_hex IsLowerHex is_lower_hex_iff id)

abbrev pub First : (ℕ → Type 0) → Bytes → Type 0
First P [] = ⊥
First P (c ∷ _) = P c

abbrev pub Last : (ℕ → Type 0) → Bytes → Type 0
Last P [] = ⊥
Last P (c ∷ []) = P c
Last P (_ ∷ d ∷ s) = Last P (d ∷ s)

abbrev pub IsLabelByte : ℕ → Type 0
IsLabelByte c = IsAlphanumeric c ⊎ (c ≡ b'-')

-- Lower case letters, digits and dashes, with no dash at either end.
abbrev pub IsLabel : Bytes → Type 0
IsLabel s = All IsLabelByte s × First IsAlphanumeric s × Last IsAlphanumeric s

label_rest_iff :
    (c : ℕ) (s : Bytes)
    → (label_rest (c ∷ s) ≡ true) ↔ (All IsLabelByte (c ∷ s) × Last IsAlphanumeric (c ∷ s))
unfolding label_rest
label_rest_iff c [] = ground arith
label_rest_iff c (d ∷ s) = ground (arith, label_rest_iff d s)

pub is_dns_label_iff : (s : Bytes) → (is_dns_label s ≡ true) ↔ IsLabel s
unfolding is_dns_label label_rest
is_dns_label_iff [] = (λ h. absurd (cc), λ (_, h, _). absurd h)
is_dns_label_iff (c ∷ []) = ground arith
is_dns_label_iff (c ∷ d ∷ s) = ground (arith, label_rest_iff d s)

-- Groups of hexadecimal digits, of these lengths, with a dash between each and the next.
abbrev pub IsGroups : List ℕ → Bytes → Type 0
IsGroups [] s = s ≡ []
IsGroups (n ∷ []) s = (length s ≡ n) × All IsHex s
IsGroups (n ∷ m ∷ ns) s =
    (group rest : Bytes) × (s ≡ group ++ b'-' ∷ rest)
    × (length group ≡ n)
    × All IsHex group
    × IsGroups (m ∷ ns) rest

abbrev pub IsUuid : Bytes → Type 0
IsUuid = IsGroups (8 ∷ 4 ∷ 4 ∷ 4 ∷ 12 ∷ [])

last_group : (n : ℕ) (s : Bytes) → (hex_digits n is_end s ≡ true) ↔ IsGroups (n ∷ []) s
unfolding hex_digits is_end
last_group zero [] = (λ _. (refl, tt), λ _. refl)
last_group zero (c ∷ s) = (λ h. absurd (cc), λ h. absurd (omega (arith, h.0)))
last_group (suc n) [] = (λ h. absurd (cc), λ h. absurd (omega (arith, h.0)))
last_group (suc n) (c ∷ s) = ground (arith, is_hex_iff c, last_group n s)

module _ (m : ℕ) (ns : List ℕ) (next : Bytes → Bool)
    (later : (s : Bytes) → (next s ≡ true) ↔ IsGroups (m ∷ ns) s) where
  group_sound : (n : ℕ) (s : Bytes) → hex_digits n (dash next) s ≡ true → IsGroups (n ∷ m ∷ ns) s
  unfolding hex_digits dash
  group_sound zero [] h = absurd (cc)
  group_sound zero (c ∷ s) h =
      let parts : (c ≡ b'-') × (next s ≡ true) = ground (arith, h) in
      ([], s, ap (λ x. x ∷ s) parts.0, refl, tt, (later s).0 parts.1)
  group_sound (suc n) [] h = absurd (cc)
  group_sound (suc n) (c ∷ s) h =
      let parts : IsHex c × (hex_digits n (dash next) s ≡ true) = ground (arith, h, is_hex_iff c) in
      let (group, rest, e, len, hex, g) = group_sound n s parts.1 in
      (c ∷ group, rest, ap (◌∷◌ c) e, ap suc len, (parts.0, hex), g)

  group_complete :
      (group rest : Bytes)
      → All IsHex group
      → IsGroups (m ∷ ns) rest
      → hex_digits (length group) (dash next) (group ++ b'-' ∷ rest) ≡ true
  unfolding hex_digits dash
  group_complete [] rest h g = (later rest).1 g
  group_complete (c ∷ group) rest h g =
      ground (arith, is_hex_iff c, h, group_complete group rest h.1 g)

  group_iff : (n : ℕ) (s : Bytes) → (hex_digits n (dash next) s ≡ true) ↔ IsGroups (n ∷ m ∷ ns) s
  group_iff n s = (
    group_sound n s,
    λ (group, rest, e, len, hex, g). rw e (rw (sym len) (group_complete group rest hex g)),
  )

pub is_uuid_iff : (s : Bytes) → (is_uuid s ≡ true) ↔ IsUuid s
unfolding is_uuid
is_uuid_iff =
    group_iff 4 (4 ∷ 4 ∷ 12 ∷ []) _
      (group_iff 4 (4 ∷ 12 ∷ []) _ (group_iff 4 (12 ∷ []) _ (group_iff 12 [] _ (last_group 12) 4) 4)
        4)
      8

-- A prefix and one or more bytes behind it.
abbrev pub IsBehind : Bytes → (ℕ → Type 0) → Bytes → Type 0
IsBehind prefix P s = (rest : Bytes) × (s ≡ prefix ++ rest) × (rest ≢ []) × All P rest

behind_iff :
    (test : ℕ → Bool) (P : ℕ → Type 0) (prefix s : Bytes)
    → ((c : ℕ) → (test c ≡ true) ↔ P c)
    → (behind (strip_prefix prefix s) test ≡ true) ↔ IsBehind prefix P s
unfolding behind strip_prefix
behind_iff test P [] [] h = (λ e. absurd (cc), λ (rest, e, ne, _). absurd (ne (sym e)))
behind_iff test P [] (c ∷ s) h = (
  λ e. (c ∷ s, refl, (cc), (all_iff test P h (c ∷ s)).0 e),
  λ (rest, e, _, a). (all_iff test P h (c ∷ s)).1 (rw (sym e) at a),
)
behind_iff test P (p ∷ prefix) [] h = (λ e. absurd (cc), λ (rest, e, _, _). absurd (cc))
behind_iff test P (p ∷ prefix) (c ∷ s) h = elim (Bool-cases (p == c)) [
  | inl e ↦ rw e (
    λ t.
        let (rest, same, ne, a) = (behind_iff test P prefix s h).0 t in
        (rest, heads p c e ∙ ap (◌∷◌ p) same, ne, a),
    λ (rest, same, ne, a). (behind_iff test P prefix s h).1 (rest, tails same, ne, a),
  )
  | inr e ↦ rw e (λ t. absurd (cc), λ (rest, same, _, _). absurd (apart same e))
]
  where
    heads : (p c : ℕ) → (p == c) ≡ true → c ∷ s ≡ p ∷ s
    heads p c e = ap (λ x. x ∷ s) (ground (arith, e))

    tails : {a b : ℕ} {x y : Bytes} → a ∷ x ≡ b ∷ y → x ≡ y
    tails e = cc

    head_of : {a b : ℕ} {x y : Bytes} → a ∷ x ≡ b ∷ y → a ≡ b
    head_of e = cc

    apart : {a b : ℕ} {x y : Bytes} → a ∷ x ≡ b ∷ y → (b == a) ≡ false → ⊥
    apart same e = ground (arith, head_of same, e)

-- `PTRACE_` and upper case letters.
abbrev pub IsPtraceRequest : Bytes → Type 0
IsPtraceRequest = IsBehind (codes "PTRACE_") IsUpper

-- `0x` and lower case hexadecimal digits.
abbrev pub IsHexNumber : Bytes → Type 0
IsHexNumber = IsBehind (codes "0x") IsLowerHex

pub is_ptrace_request_iff : (s : Bytes) → (is_ptrace_request s ≡ true) ↔ IsPtraceRequest s
unfolding is_ptrace_request
is_ptrace_request_iff s = behind_iff _ IsUpper (codes "PTRACE_") s IsUpper-iff

pub is_hex_number_iff : (s : Bytes) → (is_hex_number s ≡ true) ↔ IsHexNumber s
unfolding is_hex_number
is_hex_number_iff s = behind_iff is_lower_hex IsLowerHex (codes "0x") s is_lower_hex_iff
