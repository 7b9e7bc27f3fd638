-- ===== src/Go/ParseInt.antt =====
-- `strconv.Atoi` on any text, for an `int` of 64 bits. `none` is its error.
use mathlib.Core.Path.{subst}
use aegis_ebpf.Base.{
  ℕ, ℤ, pos, negsuc, zero, suc, ◌≤◌, ◌≡◌, refl, sym, ap, ◌∙◌, true, [], ◌∷◌, Option, none, some,
  arith, leb, ◌==◌, if◌then◌else◌, Bytes, all,
}
use aegis_ebpf.Go.Decimal.{
  is_digit, value, max_int, decimal, AreDigits, AreDigits-decimal, value-decimal, decimal-cons,
}

-- A number without a sign.
natural : Bytes → Option ℕ
natural [] = none
natural (c ∷ s) = if all is_digit (c ∷ s) then some (value 0 (c ∷ s)) else none

positive : Option ℕ → Option ℤ
positive none = none
positive (some n) = if leb n max_int then some (pos n) else none

negative : Option ℕ → Option ℤ
negative none = none
negative (some zero) = some (pos zero)
negative (some (suc n)) = if leb n max_int then some (negsuc n) else none

unfoldable pub parse_int : Bytes → Option ℤ
unfolding natural positive negative
parse_int [] = none
parse_int (c ∷ s) =
    if c == b'-'
    then negative (natural s)
    else if c == b'+'
    then positive (natural s)
    else positive (natural (c ∷ s))

all_digits : (s : Bytes) → AreDigits s → all is_digit s ≡ true
all_digits [] h = refl
all_digits (c ∷ s) (d, h) = ground (arith, d, all_digits s h)

parse_int_digits :
    (c : ℕ) (s : Bytes)
    → AreDigits (c ∷ s)
    → value 0 (c ∷ s) ≤ max_int
    → parse_int (c ∷ s) ≡ some (pos (value 0 (c ∷ s)))
unfolding parse_int is_digit
parse_int_digits c s (d, h) le = ground (arith, d, le, all_digits s h)

-- `Atoi` reads what `Itoa` prints.
pub parse_int-decimal : (n : ℕ) → n ≤ max_int → parse_int (decimal n) ≡ some (pos n)
parse_int-decimal n le =
    let (c, s, e) = decimal-cons n in
    subst (λ z. AreDigits z → value 0 z ≤ max_int → parse_int z ≡ some (pos (value 0 z))) (sym e)
      (parse_int_digits c s) (AreDigits-decimal n) (rw (value-decimal n) le)
    ∙ ap (λ (k : ℕ). some (pos k)) (value-decimal n)
