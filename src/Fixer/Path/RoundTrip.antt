-- ===== src/Fixer/Path/RoundTrip.antt =====
-- The printer of internal/fixer/path.go and its parser are inverse on well-formed paths.
use aegis_ebpf.Base.{
  ℕ, zero, suc, ◌+◌, ◌≤◌, ◌<◌, ◌≡◌, ◌≢◌, refl, true, [], ◌∷◌, ◌++◌, append_assoc, append-nil, arith,
  Bytes, All, ok, length, length-append, some, ◌∙◌, ap,
}
use aegis_ebpf.Fixer.Path.WellFormed.{
  IsName, IsSelector, IsSegment, IsPath, StopsAt, span-append, name-append,
}
use aegis_ebpf.Fixer.Path.{
  Selector, select_none, select_all, select_index, select_match, Segment, FieldPath, PathParser,
  selector_string, segment_string, segments_string, path_string, is_name_byte, not_bracket,
  selector, tail, bracketed, segment, segments, parse_path, expect,
}
use aegis_ebpf.Go.Decimal.{decimal, decimal-cons, is_digit, AreDigits-decimal, atoi, atoi-decimal}

abbrev DotOrEnd : Bytes → Type 0
DotOrEnd [] = Unit
DotOrEnd (c ∷ _) = c ≡ b'.'

selector_digits :
    (p : PathParser) (c : ℕ) (digits rest : Bytes) (i : ℕ)
    → p.rest ≡ (c ∷ digits) ++ rest
    → All (λ d. is_digit d ≡ true) (c ∷ digits)
    → StopsAt is_digit rest
    → atoi (c ∷ digits) ≡ some i
    → selector p ≡ ok (select_index i, record p { pos = p.pos + length (c ∷ digits); rest = rest })
unfolding selector is_digit
selector_digits p c digits rest i e h stop fits =
    ground (arith, span-append is_digit (c ∷ digits) rest h stop)

selector_field :
    (p : PathParser) (field value rest : Bytes)
    → p.rest ≡ field ++ (b'=' ∷ (value ++ (b']' ∷ rest)))
    → IsSelector (select_match field value)
    → (n : ℕ) × (selector p
        ≡ ok (select_match field value, record p { pos = n; rest = b']' ∷ rest }))
unfolding selector is_name_byte is_digit
selector_field p [] value rest e h = absurd (h.0.0 refl)
selector_field p (c ∷ field) [] rest e h = absurd (h.2 refl)
selector_field p (c ∷ field) (v ∷ value) rest e h = (
  p.pos + length (c ∷ field) + 1 + length (v ∷ value),
  ground (
    arith,
    name-append p (c ∷ field) (b'=' ∷ ((v ∷ value) ++ (b']' ∷ rest))) e h.0 refl,
    span-append not_bracket (v ∷ value) (b']' ∷ rest) h.3 refl,
  ),
)

bracketed-string :
    (sel : Selector) (key : Bytes) (p : PathParser) (rest : Bytes)
    → IsSelector sel
    → sel ≢ select_none
    → b'[' ∷ p.rest ≡ selector_string sel ++ rest
    → (n : ℕ) × (bracketed key p
        ≡ ok (record { key = key; sel = sel }, record p { pos = n; rest = rest }))
unfolding bracketed selector_string
bracketed-string select_none key p rest h ne e = absurd (ne refl)
bracketed-string select_all key p rest h ne e = (p.pos + 1 + 1, unfold selector in ground arith)
bracketed-string (select_index i) key p rest h ne e =
    let (c, digits, d) = decimal-cons i in
    (
      p.pos + length (c ∷ digits) + 1,
      ground (
        arith,
        d,
        append_assoc (decimal i) (b']' ∷ []) rest,
        selector_digits p c digits (b']' ∷ rest) i
            (ground (arith, d, append_assoc (decimal i) (b']' ∷ []) rest))
            (rw d at (AreDigits-decimal i)) (unfold is_digit in refl) (rw d at (atoi-decimal i h)),
      ),
    )
bracketed-string (select_match field value) key p rest h ne e =
    let (n, read) = selector_field p field value rest (ap tail e ∙ simp append_assoc) h in
    (n + 1, rw read)

-- A key with its selector behind it, the bracket and all.
segment_bracket :
    (sel : Selector) (key : Bytes) (p : PathParser) (rest : Bytes)
    → IsName key
    → IsSelector sel
    → sel ≢ select_none
    → p.rest ≡ key ++ (selector_string sel ++ rest)
    → (n : ℕ) × (segment p
        ≡ ok (record { key = key; sel = sel }, record p { pos = n; rest = rest }))
unfolding segment
segment_bracket sel key p rest k h ne e =
    let (text, starts) = opens sel ne in
    let q : PathParser = record p { pos = p.pos + length key + 1; rest = text ++ rest } in
    let (n, read) = bracketed-string sel key q rest h ne (rw starts) in
    (
      n,
      ground (
        arith,
        starts,
        read,
        name-append p key (selector_string sel ++ rest) e k
            (rw starts (unfold is_name_byte is_digit in refl)),
      ),
    )
  where
    opens : (s : Selector) → s ≢ select_none → (text : Bytes) × (selector_string s ≡ b'[' ∷ text)
    opens select_none n = absurd (n refl)
    opens select_all n = (b'*' ∷ b']' ∷ [], unfold selector_string in refl)
    opens (select_index i) n = (decimal i ++ b']' ∷ [], unfold selector_string in refl)
    opens (select_match f v) n = (f ++ (b'=' ∷ (v ++ b']' ∷ [])), unfold selector_string in refl)

segment_plain :
    (key : Bytes) (p : PathParser) (rest : Bytes)
    → IsName key
    → DotOrEnd rest
    → p.rest ≡ key ++ rest
    → segment p
      ≡ ok (
        record { key = key; sel = select_none },
        record p { pos = p.pos + length key; rest = rest },
      )
unfolding segment is_name_byte is_digit
segment_plain key p [] k dot e = ground (arith, name-append p key [] e k tt)
segment_plain key p (c ∷ rest) k dot e =
    ground (arith, name-append p key (c ∷ rest) e k (rw dot refl))

-- `segment` reads back one segment, and stops at the dot or at the end.
segment-string :
    (key : Bytes) (sel : Selector) (p : PathParser) (rest : Bytes)
    → IsName key
    → IsSelector sel
    → DotOrEnd rest
    → p.rest ≡ (key ++ selector_string sel) ++ rest
    → (n : ℕ) × (segment p
        ≡ ok (record { key = key; sel = sel }, record p { pos = n; rest = rest }))
segment-string key select_none p rest k h dot e = (
  p.pos + length key,
  segment_plain key p rest k dot (e ∙ unfold selector_string in rw append-nil),
)
segment-string key select_all p rest k h dot e =
    segment_bracket select_all key p rest k h (cc) (e ∙ append_assoc key _ rest)
segment-string key (select_index i) p rest k h dot e =
    segment_bracket (select_index i) key p rest k h (cc) (e ∙ append_assoc key _ rest)
segment-string key (select_match f v) p rest k h dot e =
    segment_bracket (select_match f v) key p rest k h (cc) (e ∙ append_assoc key _ rest)

segments_string-DotOrEnd : (path : FieldPath) → DotOrEnd (segments_string path)
unfolding segments_string
segments_string-DotOrEnd [] = tt
segments_string-DotOrEnd (seg ∷ path) = refl

segments-string :
    (path : FieldPath) (seg : Segment) (fuel : ℕ) (p : PathParser)
    → IsSegment seg
    → All IsSegment path
    → length path < fuel
    → p.rest ≡ segment_string seg ++ segments_string path
    → segments fuel p ≡ ok (seg ∷ path)
unfolding segments segments_string expect
segments-string path seg zero p w ws h e = absurd (omega arith)
segments-string [] seg (suc fuel) p w ws h e =
    let (n, read) = segment-string seg.key seg.sel p [] w.0 w.1 tt e in rw read
segments-string (next ∷ path) seg (suc fuel) p w ws h e =
    let rest = segments_string (next ∷ path) in
    let (n, read) =
      segment-string seg.key seg.sel p rest w.0 w.1 (segments_string-DotOrEnd (next ∷ path)) e in
    let q : PathParser = record p {
      pos = n + 1;
      rest = segment_string next ++ segments_string path;
    } in
    rw read (rw (segments-string path next fuel q ws.0 ws.1 (omega arith) refl))

length_path : (path : FieldPath) → length path ≤ length (segments_string path)
unfolding segments_string
length_path [] = omega arith
length_path (seg ∷ path) =
    omega (arith, length_path path, length-append {0} (segment_string seg) (segments_string path))

-- `ParsePath` accepts the text of a path and gives the path back: for every path that is not empty, whose
-- keys are not empty and of name bytes, whose indices fit an int, and whose matches have a field that is not
-- empty, of name bytes, with no digit in front, and a value that is not empty and without brackets.
pub parse_path-string : (path : FieldPath) → IsPath path → parse_path (path_string path) ≡ ok path
unfolding parse_path path_string
parse_path-string [] h = absurd (h.0 refl)
parse_path-string (seg ∷ path) h =
    segments-string path seg _ _ h.1.0 h.1.1
      (omega
        (arith, length_path path, length-append {0} (segment_string seg) (segments_string path)))
      refl
