-- ===== src/Go/Decimal.antt =====
-- `strconv.Itoa` (and `%d`) on non-negative numbers, and `strconv.Atoi` on digits.
use aegis_ebpf.Base.{
  ℕ, zero, suc, ◌+◌, ◌-◌, ◌*◌, ◌/◌, ◌%◌, ◌^◌, ◌≤◌, ◌<◌, ◌≡◌, Bool, true, ◌&&◌, [], ◌∷◌, Option,
  none, some, arith, ltb, leb, if◌then◌else◌, Bytes, All, Bool-cases, inl, inr,
}

-- Fuel `n + 1` is enough for `n`: each round divides by ten.
decimal_onto : ℕ → ℕ → Bytes → Bytes
decimal_onto zero n out = out
decimal_onto (suc f) n out =
    let rest = decimal_onto f (n / 10) ((b'0' + n % 10) ∷ out) in
    if ltb n 10 then (b'0' + n) ∷ out else rest

unfoldable pub decimal : ℕ → Bytes
unfolding decimal_onto
decimal n = decimal_onto (n + 1) n []

unfoldable pub is_digit : ℕ → Bool
is_digit c = leb b'0' c && leb c b'9'

-- The number that digits spell behind `n`.
abbrev pub value : ℕ → Bytes → ℕ
value n [] = n
value n (c ∷ s) = value (n * 10 + (c - b'0')) s

-- `int` has 64 bits.
abbrev pub max_int : ℕ
max_int = 2 ^ 63 - 1

-- `strconv.Atoi` on a text of digits; `none` is its range error.
unfoldable pub atoi : Bytes → Option ℕ
atoi s = if leb (value 0 s) max_int then some (value 0 s) else none

abbrev pub AreDigits : Bytes → Type 0
AreDigits = All (λ c. is_digit c ≡ true)

value-decimal_onto : (f n : ℕ) (out : Bytes) → n < f → value 0 (decimal_onto f n out) ≡ value n out
unfolding decimal_onto
value-decimal_onto zero n out h = elim h [ ]
value-decimal_onto (suc f) n out h =
    ground (arith, value-decimal_onto f (n / 10) ((b'0' + n % 10) ∷ out))

AreDigits-decimal_onto : (f n : ℕ) (out : Bytes) → AreDigits out → AreDigits (decimal_onto f n out)
unfolding decimal_onto is_digit
AreDigits-decimal_onto zero n out h = h
AreDigits-decimal_onto (suc f) n out h =
    let rest = AreDigits-decimal_onto f (n / 10) ((b'0' + n % 10) ∷ out) (ground arith, h) in
    ground arith

decimal_onto-cons :
    (f n : ℕ) (out : Bytes) → (c : ℕ) × (s : Bytes) × (decimal_onto (suc f) n out ≡ c ∷ s)
unfolding decimal_onto
decimal_onto-cons zero n out = elim (Bool-cases (ltb n 10)) [
  | inl e ↦ (b'0' + n, out, rw e)
  | inr e ↦ (b'0' + n % 10, out, rw e)
]
decimal_onto-cons (suc f) n out =
    let (c, s, more) = decimal_onto-cons f (n / 10) ((b'0' + n % 10) ∷ out) in
    elim (Bool-cases (ltb n 10)) [ inl e ↦ (b'0' + n, out, rw e) | inr e ↦ (c, s, rw e more) ]

pub value-decimal : (n : ℕ) → value 0 (decimal n) ≡ n
unfolding decimal
value-decimal n = value-decimal_onto (n + 1) n [] (omega arith)

pub AreDigits-decimal : (n : ℕ) → AreDigits (decimal n)
unfolding decimal
AreDigits-decimal n = AreDigits-decimal_onto (n + 1) n [] tt

-- The print is never empty.
pub decimal-cons : (n : ℕ) → (c : ℕ) × (s : Bytes) × (decimal n ≡ c ∷ s)
unfolding decimal
decimal-cons n = let e : n + 1 ≡ suc n = omega arith in rw e (decimal_onto-cons n n [])

pub atoi-decimal : (n : ℕ) → n ≤ max_int → atoi (decimal n) ≡ some n
unfolding atoi
atoi-decimal n h = rw (value-decimal n) (ground arith)

pub atoi_bound : (s : Bytes) {n : ℕ} → atoi s ≡ some n → n ≤ max_int
unfolding atoi
atoi_bound s h = ground arith
