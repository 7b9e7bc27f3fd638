-- ===== src/Fixer/Path/Selectors.antt =====
-- What the parser of internal/fixer/path.go reads for a name and a selector.
use aegis_ebpf.Base.{
  ℕ, ◌+◌, ◌≤◌, ◌<◌, ◌≡◌, ◌≢◌, refl, Bool, true, false, [], ◌∷◌, ◌++◌, arith, Bytes, Result, ok, err,
  length, length-append, ◌∙◌, sym, ap, inl, inr, Option-cases, Bool-cases, ==_iff, ◌==◌, ◌>>=◌,
}
use aegis_ebpf.Fixer.Path.WellFormed.{IsName, IsSelector, NoDigitHead, span-All, span-split}
use aegis_ebpf.Fixer.Path.{
  select_all, PathParser, PathError, no_fuel, is_name_byte, not_bracket, span, name, selector,
  expect, name_of, index_of, value_of, match_of, peek, tail, head_or_zero,
}
use aegis_ebpf.Go.Decimal.{is_digit, atoi, atoi_bound}

-- The parser has gone on from `p` to `q` in the same source.
pub record Reads (p q : PathParser) : Type 0 where
  pub src : q.src ≡ p.src
  pub balance : q.pos + length q.rest ≡ p.pos + length p.rest
  pub shrinks : length q.rest < length p.rest

-- The error names the source, and an offset in it.
pub record Blames (p : PathParser) (e : PathError) : Type 0 where
  pub path : e.path ≡ p.src
  pub offset : e.offset ≤ p.pos + length p.rest
  pub fuelled : e.msg ≢ no_fuel

abbrev pub Yields :
    {A : Type 0} → (A → Type 0) → PathParser → Result PathError (A × PathParser) → Type 0
Yields P p (ok (a, q)) = P a × Reads p q
Yields P p (err e) = Blames p e

abbrev pub Advances : PathParser → Result PathError PathParser → Type 0
Advances p (ok q) = Reads p q
Advances p (err e) = Blames p e

expect_at :
    (src : Bytes) (pos : ℕ) (rest : Bytes) (c : ℕ)
    → 0 < c
    → let p : PathParser = record { src = src; pos = pos; rest = rest } in Advances p (expect p c)
unfolding expect
expect_at src pos [] c h = ground arith
expect_at src pos (d ∷ rest) c h = ground arith

pub expect-Advances : (p : PathParser) (c : ℕ) → 0 < c → Advances p (expect p c)
expect-Advances p = expect_at p.src p.pos p.rest

length-span :
    (test : ℕ → Bool) (s : Bytes) → length (span test s).0 + length (span test s).1 ≡ length s
length-span test s =
    sym (length-append (span test s).0 (span test s).1) ∙ ap length (span-split test s)

pub name-Yields : (p : PathParser) → Yields IsName p (name p)
unfolding name
name-Yields p = name_of_lem (span is_name_byte p.rest) refl
  where
    name_of_lem : (t : Bytes × Bytes) → span is_name_byte p.rest ≡ t → Yields IsName p (name_of p t)
    name_of_lem ([], rest) e = record { path = refl; offset = omega arith; fuelled = cc }
    name_of_lem (c ∷ cs, rest) e = (
      (cc, rw (ap (λ (x : Bytes × Bytes). x.0) e) at (span-All is_name_byte p.rest)),
      record {
        src = refl;
        balance = ground (arith, e, length-span is_name_byte p.rest);
        shrinks = ground (arith, e, length-span is_name_byte p.rest);
      },
    )

pub Reads-trans : {p q r : PathParser} → Reads p q → Reads q r → Reads p r
Reads-trans a b = ground arith

pub Blames-later : {p q : PathParser} {e : PathError} → Reads p q → Blames q e → Blames p e
Blames-later a b = ground arith

index-Yields :
    (p : PathParser) (t : Bytes × Bytes)
    → span is_digit p.rest ≡ t
    → 0 < length t.0
    → Yields IsSelector p (index_of p t)
unfolding index_of
index-Yields p (took, rest) e h = elim (Option-cases (atoi took)) [
  | inl bad ↦
      rw (bad, index_of, Yields) (record { path = refl; offset = omega arith; fuelled = cc })
  | inr (n, good) ↦
      rw (good, index_of, Yields)
        (
          atoi_bound took good,
          record {
            src = refl;
            balance = ground (arith, e, length-span is_digit p.rest);
            shrinks = ground (arith, e, length-span is_digit p.rest);
          },
        )
]

value-Yields :
    (p q : PathParser) (field : Bytes) (t : Bytes × Bytes)
    → Reads p q
    → IsName field
    → NoDigitHead field
    → span not_bracket q.rest ≡ t
    → Yields IsSelector p (value_of q field t)
unfolding value_of
value-Yields p q field ([], rest) r n d e = ground arith
value-Yields p q field (c ∷ cs, rest) r n d e = (
  (n, d, (cc), rw (ap (λ (x : Bytes × Bytes). x.0) e) at (span-All not_bracket q.rest)),
  Reads-trans r (record {
    src = refl;
    balance = ground (arith, e, length-span not_bracket q.rest);
    shrinks = ground (arith, e, length-span not_bracket q.rest);
  }),
)

name-head :
    (p q : PathParser) (field : Bytes) → name p ≡ ok (field, q) → head_or_zero field ≡ peek p
unfolding name
name-head p q field e = go (span is_name_byte p.rest) e (span-split is_name_byte p.rest)
  where
    go :
        (t : Bytes × Bytes)
        → name_of p t ≡ ok (field, q)
        → t.0 ++ t.1 ≡ p.rest
        → head_or_zero field ≡ head_or_zero p.rest
    go ([], rest) h s = cc
    go (c ∷ cs, rest) h s = ground arith

NoDigitHead-head : (field : Bytes) → is_digit (head_or_zero field) ≡ false → NoDigitHead field
NoDigitHead-head [] h = tt
NoDigitHead-head (c ∷ field) h = h

match-Yields :
    (p : PathParser) → is_digit (peek p) ≡ false → Yields IsSelector p (match_of p (name p))
unfolding match_of
match-Yields p plain = go (name p) refl (name-Yields p)
  where
    after :
        (field : Bytes) (q : PathParser)
        → IsName field
        → NoDigitHead field
        → Reads p q
        → (r : Result PathError PathParser) → Advances q r
        → Yields IsSelector p (r >>= λ x. value_of x field (span not_bracket x.rest))
    after field q n d r (err e) b = Blames-later r b
    after field q n d r (ok x) b =
        value-Yields p x field (span not_bracket x.rest) (Reads-trans r b) n d refl

    go :
        (m : Result PathError (Bytes × PathParser))
        → name p ≡ m
        → Yields IsName p m
        → Yields IsSelector p (match_of p m)
    go (err e) h y = record { path = refl; offset = omega arith; fuelled = cc }
    go (ok (field, q)) h y =
        after field q y.0 (NoDigitHead-head field (ap is_digit (name-head p q field h) ∙ plain)) y.1
          (expect q b'=') (expect-Advances q b'=' (omega arith))

span-pos :
    (test : ℕ → Bool) (s : Bytes)
    → test 0 ≡ false
    → test (head_or_zero s) ≡ true
    → 0 < length (span test s).0
unfolding span
span-pos test [] z h = cc
span-pos test (c ∷ s) z h = ground arith

all_reads :
    (p : PathParser)
    → peek p ≡ b'*'
    → Yields IsSelector p (ok (select_all, record p { pos = p.pos + 1; rest = tail p.rest }))
all_reads p h = go p.rest h
  where
    go :
        (rest : Bytes)
        → head_or_zero rest ≡ b'*'
        → Yields IsSelector
            (record p { rest = rest })
            (ok (select_all, record p { pos = p.pos + 1; rest = tail rest }))
    go [] h = absurd (omega arith)
    go (c ∷ rest) h = ground arith

pub selector-Yields : (p : PathParser) → Yields IsSelector p (selector p)
unfolding selector
selector-Yields p = elim (Bool-cases (peek p == b'*')) [
  | inl star ↦ rw (star) (all_reads p ((==_iff (peek p) b'*').0 star))
  | inr other ↦ rw (other) (elim (Bool-cases (is_digit (peek p))) [
    | inl digit ↦ rw (digit) (
        index-Yields p (span is_digit p.rest) refl
          (span-pos is_digit p.rest (unfold is_digit in refl) digit))
    | inr plain ↦ rw (plain) (match-Yields p plain)
  ])
]
