-- ===== src/Fixer/Path/WellFormed.antt =====
-- The paths that the parser of internal/fixer/path.go reads back, and its loops on them. The grammar has
-- more: a field of a match may begin with a digit there, and the parser takes it for an index.
use aegis_ebpf.Base.{
  ℕ, ◌+◌, ◌≤◌, ◌≡◌, ◌≢◌, refl, Bool, true, false, [], ◌∷◌, ◌++◌, arith, Bytes, All, ok, length,
}
use aegis_ebpf.Fixer.Path.{
  Selector, select_none, select_all, select_index, select_match, Segment, FieldPath, PathParser,
  is_name_byte, not_bracket, span, name,
}
use aegis_ebpf.Go.Decimal.{is_digit, max_int}

abbrev pub IsName : Bytes → Type 0
IsName s = (s ≢ []) × All (λ c. is_name_byte c ≡ true) s

abbrev pub NoDigitHead : Bytes → Type 0
NoDigitHead [] = Unit
NoDigitHead (c ∷ _) = is_digit c ≡ false

-- A field that begins with a digit is read as an index, so it is left out.
abbrev pub IsSelector : Selector → Type 0
IsSelector select_none = Unit
IsSelector select_all = Unit
IsSelector (select_index i) = i ≤ max_int
IsSelector (select_match field value) =
    IsName field × NoDigitHead field × (value ≢ []) × All (λ c. not_bracket c ≡ true) value

abbrev pub IsSegment : Segment → Type 0
IsSegment seg = IsName seg.key × IsSelector seg.sel

abbrev pub IsPath : FieldPath → Type 0
IsPath path = (path ≢ []) × All IsSegment path

-- What follows a text ends the loop over the bytes that pass a test.
abbrev pub StopsAt : (ℕ → Bool) → Bytes → Type 0
StopsAt test [] = Unit
StopsAt test (c ∷ _) = test c ≡ false

pub span-append :
    (test : ℕ → Bool) (s rest : Bytes)
    → All (λ c. test c ≡ true) s
    → StopsAt test rest
    → span test (s ++ rest) ≡ (s, rest)
unfolding span
span-append test [] [] _ _ = refl
span-append test [] (c ∷ rest) _ stop = ground arith
span-append test (c ∷ s) rest h stop = ground (arith, span-append test s rest h.1 stop)

-- What `span` takes passes the test, and what it leaves is the rest of the text.
pub span-All : (test : ℕ → Bool) (s : Bytes) → All (λ c. test c ≡ true) (span test s).0
unfolding span
span-All test [] = tt
span-All test (c ∷ s) = ground (arith, span-All test s)

pub span-split : (test : ℕ → Bool) (s : Bytes) → (span test s).0 ++ (span test s).1 ≡ s
unfolding span
span-split test [] = refl
span-split test (c ∷ s) = ground (arith, span-split test s)

pub name-append :
    (p : PathParser) (s rest : Bytes)
    → p.rest ≡ s ++ rest
    → IsName s
    → StopsAt is_name_byte rest
    → name p ≡ ok (s, record p { pos = p.pos + length s; rest = rest })
unfolding name
name-append p [] rest e h stop = absurd (h.0 refl)
name-append p (c ∷ s) rest e h stop = ground (arith, span-append is_name_byte (c ∷ s) rest h.1 stop)
