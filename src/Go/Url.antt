-- ===== src/Go/Url.antt =====
-- `url.PathEscape` and `url.QueryEscape` on byte strings.
use aegis_ebpf.Base.{
  ℕ, ◌+◌, ◌-◌, ◌/◌, ◌%◌, ◌<◌, ◌≡◌, ◌≢◌, inl, inr, refl, sym, Bool, true, ◌&&◌, ◌||◌, List, [], ◌∷◌,
  arith, leb, ltb, ◌==◌, Bool-cases, if◌then◌else◌, Bytes, All,
}

-- An upper-case hexadecimal digit.
abbrev pub hex_digit : ℕ → ℕ
hex_digit n = if ltb n 10 then b'0' + n else b'A' + (n - 10)

abbrev pub is_unreserved : ℕ → Bool
is_unreserved c =
    leb b'a' c && leb c b'z'
    || leb b'A' c && leb c b'Z'
    || leb b'0' c && leb c b'9'
    || c == b'-'
    || c == b'_'
    || c == b'.'
    || c == b'~'

-- The characters that stay in a segment of a path.
unfoldable pub stays_in_segment : ℕ → Bool
stays_in_segment c =
    is_unreserved c || c == b'$' || c == b'&' || c == b'+' || c == b':' || c == b'=' || c == b'@'

unfoldable pub path_escape : Bytes → Bytes
path_escape [] = []
path_escape (c ∷ s) =
    let rest = path_escape s in
    if stays_in_segment c then c ∷ rest else b'%' ∷ hex_digit (c / 16) ∷ hex_digit (c % 16) ∷ rest

unfoldable pub query_escape : Bytes → Bytes
query_escape [] = []
query_escape (c ∷ s) =
    let rest = query_escape s in
    if c == b' '
    then b'+' ∷ rest
    else if is_unreserved c
    then c ∷ rest
    else b'%' ∷ hex_digit (c / 16) ∷ hex_digit (c % 16) ∷ rest

abbrev pub AreBytes : Bytes → Type 0
AreBytes = All (λ c. c < 256)

hex_digit_injective : (a b : ℕ) → a < 16 → b < 16 → hex_digit a ≡ hex_digit b → a ≡ b
hex_digit_injective a b la lb e = ground (arith, e, la, lb)

hex_digits_injective :
    (c d : ℕ)
    → c < 256
    → d < 256
    → hex_digit (c / 16) ≡ hex_digit (d / 16)
    → hex_digit (c % 16) ≡ hex_digit (d % 16)
    → c ≡ d
hex_digits_injective c d lc ld hi lo = omega (
  arith,
  hex_digit_injective (c / 16) (d / 16) (omega (arith, lc)) (omega (arith, ld)) hi,
  hex_digit_injective (c % 16) (d % 16) (omega arith) (omega arith) lo,
)

percent_goes : (c : ℕ) → stays_in_segment c ≡ true → c ≢ b'%'
unfolding stays_in_segment
percent_goes c e h = ground (arith, e, h)

heads {ℓ} : {A : Type ℓ} {x y : A} {xs ys : List A} → x ∷ xs ≡ y ∷ ys → (x ≡ y) × (xs ≡ ys)
heads e = (cc, cc)

-- Different texts stay different.
pub path_escape_injective :
    (s t : Bytes) → AreBytes s → AreBytes t → path_escape s ≡ path_escape t → s ≡ t
unfolding path_escape
path_escape_injective [] [] bs bt e = refl
path_escape_injective [] (d ∷ t) bs bt e = elim (Bool-cases (stays_in_segment d)) [
  | inl k ↦ absurd (let f = rw k at e in cc)
  | inr k ↦ absurd (let f = rw k at e in cc)
]
path_escape_injective (c ∷ s) [] bs bt e = elim (Bool-cases (stays_in_segment c)) [
  | inl k ↦ absurd (let f = rw k at e in cc)
  | inr k ↦ absurd (let f = rw k at e in cc)
]
path_escape_injective (c ∷ s) (d ∷ t) (lc, bs) (ld, bt) e = elim (Bool-cases (stays_in_segment c)) [
  | inl k ↦ elim (Bool-cases (stays_in_segment d)) [
    | inl j ↦
        let f = rw (k, j) at e in
        let (h, r) = heads f in let same = path_escape_injective s t bs bt r in cc
    | inr j ↦ let f = rw (k, j) at e in absurd (percent_goes c k (heads f).0)
  ]
  | inr k ↦ elim (Bool-cases (stays_in_segment d)) [
    | inl j ↦ let f = rw (k, j) at e in absurd (percent_goes d j (sym (heads f).0))
    | inr j ↦
        let f = rw (k, j) at e in
        let (_, f₁) = heads f in
        let (hi, f₂) = heads f₁ in
        let (lo, r) = heads f₂ in
        let same = path_escape_injective s t bs bt r in
        let head = hex_digits_injective c d lc ld hi lo in cc
  ]
]

-- A segment has no slash, question mark or hash in it.
abbrev pub StaysInside : ℕ → Type 0
StaysInside c = (c ≢ b'/') × (c ≢ b'?') × (c ≢ b'#')

stays_inside : (c : ℕ) → stays_in_segment c ≡ true → StaysInside c
unfolding stays_in_segment
stays_inside c e =
    ((λ h. ground (arith, e, h)), (λ h. ground (arith, e, h)), (λ h. ground (arith, e, h)))

hex_digit-inside : (n : ℕ) → n < 16 → StaysInside (hex_digit n)
hex_digit-inside n lt =
    ((λ h. ground (arith, lt, h)), (λ h. ground (arith, lt, h)), (λ h. ground (arith, lt, h)))

pub path_escape-inside : (s : Bytes) → AreBytes s → All StaysInside (path_escape s)
unfolding path_escape
path_escape-inside [] b = tt
path_escape-inside (c ∷ s) (lc, b) = elim (Bool-cases (stays_in_segment c)) [
  | inl k ↦ rw k (stays_inside c k, path_escape-inside s b)
  | inr k ↦ rw k (
    (
      (λ h. absurd (omega (arith, h))),
      (λ h. absurd (omega (arith, h))),
      (λ h. absurd (omega (arith, h))),
    ),
    (
      hex_digit-inside (c / 16) (omega (arith, lc)),
      (hex_digit-inside (c % 16) (omega arith), path_escape-inside s b),
    ),
  )
]
