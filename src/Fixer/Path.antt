-- ===== src/Fixer/Path.antt =====
-- internal/fixer/path.go: paths, their printer and their parser. A parser is the unread part of
-- the source and its byte offset; the slices of the source that the code takes are the bytes read.
pub mod WellFormed
pub mod Selectors
pub mod Sound
pub mod RoundTrip
use aegis_ebpf.Base.{
  ℕ, zero, suc, ◌+◌, Bool, true, false, ◌&&◌, ◌||◌, List, [], ◌∷◌, ◌++◌, Option, none, some, leb,
  ◌==◌, if◌then◌else◌, Bytes, Result, ok, err, ◌>>=◌, length,
}
use aegis_ebpf.Go.Decimal.{decimal, is_digit, atoi}

-- `Selector` with its kind: each constructor carries the fields that its kind uses.
pub data Selector : Type 0 where
  select_none : Selector
  select_all : Selector
  select_index : ℕ → Selector
  select_match : Bytes → Bytes → Selector

pub record Segment : Type 0 where
  pub key : Bytes
  pub sel : Selector

abbrev pub FieldPath : Type 0
FieldPath = List Segment

-- The messages of a `PathError`. `no_fuel` is the model's own; `parse_path` never returns it.
pub data Message : Type 0 where
  expected_byte : ℕ → Message
  expected_field_name : Message
  expected_selector : Message
  expected_value : Message
  index_out_of_range : Message
  no_fuel : Message

pub record PathError : Type 0 where
  pub path : Bytes
  pub offset : ℕ
  pub msg : Message

unfoldable pub selector_string : Selector → Bytes
selector_string select_none = []
selector_string select_all = b'[' ∷ b'*' ∷ b']' ∷ []
selector_string (select_index i) = b'[' ∷ (decimal i ++ b']' ∷ [])
selector_string (select_match field value) = b'[' ∷ (field ++ (b'=' ∷ (value ++ b']' ∷ [])))

abbrev pub segment_string : Segment → Bytes
segment_string seg = seg.key ++ selector_string seg.sel

-- `Path.String`: the flag of the loop, `i > 0`, is false at the first segment only.
unfoldable pub segments_string : FieldPath → Bytes
segments_string [] = []
segments_string (seg ∷ rest) = b'.' ∷ (segment_string seg ++ segments_string rest)

unfoldable pub path_string : FieldPath → Bytes
unfolding segments_string selector_string
path_string [] = []
path_string (seg ∷ rest) = segment_string seg ++ segments_string rest

unfoldable pub is_name_byte : ℕ → Bool
is_name_byte c =
    leb b'a' c && leb c b'z' || leb b'A' c && leb c b'Z' || is_digit c || c == b'_' || c == b'-'

pub record PathParser : Type 0 where
  pub src : Bytes
  pub pos : ℕ
  pub rest : Bytes

abbrev pub eof : PathParser → Bool
eof p = elim p.rest [ [] ↦ true | _ ∷ _ ↦ false ]

abbrev pub head_or_zero : Bytes → ℕ
head_or_zero [] = 0
head_or_zero (c ∷ _) = c

abbrev pub peek : PathParser → ℕ
peek p = head_or_zero p.rest

abbrev pub tail : Bytes → Bytes
tail [] = []
tail (_ ∷ cs) = cs

-- `p.pos++`
abbrev pub advance : PathParser → PathParser
advance p = record p { pos = p.pos + 1; rest = tail p.rest }

abbrev pub errorf {ℓ} : {A : Type ℓ} → PathParser → Message → Result PathError A
errorf p m = err (record { path = p.src; offset = p.pos; msg = m })

unfoldable pub expect : PathParser → ℕ → Result PathError PathParser
expect p c = if peek p == c then ok (advance p) else errorf p (expected_byte c)

-- The loops of the parser: the longest prefix whose bytes pass the test, and what is behind it.
unfoldable pub span : (ℕ → Bool) → Bytes → Bytes × Bytes
span test [] = ([], [])
span test (c ∷ cs) =
    let (took, rest) = span test cs in if test c then (c ∷ took, rest) else ([], c ∷ cs)

abbrev pub skip : PathParser → Bytes × Bytes → PathParser
skip p (took, rest) = record p { pos = p.pos + length took; rest = rest }

name_of : PathParser → Bytes × Bytes → Result PathError (Bytes × PathParser)
name_of p ([], rest) = errorf p expected_field_name
name_of p (c ∷ cs, rest) = ok (c ∷ cs, skip p (c ∷ cs, rest))

unfoldable pub name : PathParser → Result PathError (Bytes × PathParser)
unfolding name_of span
name p = name_of p (span is_name_byte p.rest)

index_of : PathParser → Bytes × Bytes → Result PathError (Selector × PathParser)
index_of p digits = elim (atoi digits.0) [
  | none ↦ errorf p index_out_of_range
  | some n ↦ ok (select_index n, skip p digits)
]

value_of : PathParser → Bytes → Bytes × Bytes → Result PathError (Selector × PathParser)
value_of p field ([], rest) = errorf p expected_value
value_of p field (c ∷ cs, rest) = ok (select_match field (c ∷ cs), skip p (c ∷ cs, rest))

abbrev pub not_bracket : ℕ → Bool
not_bracket c = if c == b']' then false else true

-- `selector` replaces the error of `name`, at the offset that `name` leaves.
match_of :
    PathParser → Result PathError (Bytes × PathParser) → Result PathError (Selector × PathParser)
match_of p (err e) = errorf p expected_selector
match_of p (ok (field, p')) = do q ← expect p' b'='; value_of q field (span not_bracket q.rest)

unfoldable pub selector : PathParser → Result PathError (Selector × PathParser)
unfolding index_of value_of match_of name expect span
selector p =
    if peek p == b'*'
    then ok (select_all, advance p)
    else if is_digit (peek p)
    then index_of p (span is_digit p.rest)
    else match_of p (name p)

-- The rest of `segment` behind the opening bracket.
unfoldable pub bracketed : Bytes → PathParser → Result PathError (Segment × PathParser)
unfolding expect
bracketed key p = do
  (sel, q) ← selector p
  r ← expect q b']'
  ok (record { key = key; sel = sel }, r)

abbrev pub after_key : Bytes × PathParser → Result PathError (Segment × PathParser)
after_key (key, p) =
    if peek p == b'['
    then bracketed key (advance p)
    else ok (record { key = key; sel = select_none }, p)

unfoldable pub segment : PathParser → Result PathError (Segment × PathParser)
segment p = name p >>= after_key

-- The loop of `ParsePath`. Each segment reads a byte at least, so `length s + 1` rounds are enough.
unfoldable pub segments : ℕ → PathParser → Result PathError FieldPath
segments zero p = errorf p no_fuel
segments (suc fuel) p = do
  (seg, q) ← segment p
  let more = (do r ← expect q b'.'; path ← segments fuel r; ok (seg ∷ path))
  if eof q then ok (seg ∷ []) else more

unfoldable pub parse_path : Bytes → Result PathError FieldPath
parse_path s = segments (length s + 1) (record { src = s; pos = 0; rest = s })
