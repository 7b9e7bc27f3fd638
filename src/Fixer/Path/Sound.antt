-- ===== src/Fixer/Path/Sound.antt =====
-- What the parser of internal/fixer/path.go accepts, and where it puts its errors.
use aegis_ebpf.Fixer.Path.Selectors.{
  Reads, Blames, Yields, Advances, expect-Advances, name-Yields, Reads-trans, Blames-later,
  selector-Yields,
}
use mathlib.Core.Path.{subst}
use aegis_ebpf.Base.{
  ℕ, zero, suc, ◌+◌, ◌≤◌, ◌<◌, ◌≡◌, ◌≢◌, [], ◌∷◌, arith, Bytes, Result, ok, err, length, inl, inr,
  Bool-cases, ==_iff, ◌==◌, ◌>>=◌, if◌then◌else◌,
}
use aegis_ebpf.Fixer.Path.RoundTrip.{parse_path-string}
use aegis_ebpf.Fixer.Path.WellFormed.{IsName, IsSelector, IsSegment, IsPath}
use aegis_ebpf.Fixer.Path.{
  Selector, Segment, FieldPath, PathParser, PathError, no_fuel, path_string, name, selector,
  bracketed, segment, after_key, segments, parse_path, expect, peek, eof, advance, tail,
  head_or_zero,
}

bracketed-Yields :
    (key : Bytes) (p : PathParser) → IsName key → Yields IsSegment p (bracketed key p)
unfolding bracketed
bracketed-Yields key p k = go (selector p) (selector-Yields p)
  where
    close :
        (sel : Selector) (q : PathParser) (m : Result PathError PathParser)
        → IsSelector sel
        → Reads p q
        → Advances q m
        → Yields IsSegment p (m >>= λ r. ok (record { key = key; sel = sel }, r))
    close sel q (err e) w r b = Blames-later r b
    close sel q (ok x) w r b = ((k, w), Reads-trans r b)

    go :
        (m : Result PathError (Selector × PathParser))
        → Yields IsSelector p m
        → Yields IsSegment p
            (m >>= λ (sel, q). expect q b']' >>= λ r. ok (record { key = key; sel = sel }, r))
    go (err e) b = b
    go (ok (sel, q)) (w, r) = close sel q (expect q b']') w r (expect-Advances q b']' (omega arith))

open_bracket-Reads : (p : PathParser) → peek p ≡ b'[' → Reads p (advance p)
open_bracket-Reads p h = go p.rest h
  where
    go :
        (rest : Bytes)
        → head_or_zero rest ≡ b'['
        → Reads (record p { rest = rest }) (record p { pos = p.pos + 1; rest = tail rest })
    go [] h = absurd (omega arith)
    go (c ∷ rest) h = ground arith

Yields-later :
    {p q : PathParser} (m : Result PathError (Segment × PathParser))
    → Reads p q
    → Yields IsSegment q m
    → Yields IsSegment p m
Yields-later (err e) r b = Blames-later r b
Yields-later (ok (seg, x)) r (w, r') = (w, Reads-trans r r')

after_key-Yields :
    (p q : PathParser) (key : Bytes)
    → IsName key
    → Reads p q
    → Yields IsSegment p (after_key (key, q))
after_key-Yields p q key k r = elim (Bool-cases (peek q == b'[')) [
  | inl bracket ↦ rw (bracket) (
      Yields-later (bracketed key (advance q))
        (Reads-trans r (open_bracket-Reads q ((==_iff (peek q) b'[').0 bracket)))
        (bracketed-Yields key (advance q) k))
  | inr plain ↦ rw (plain) ((k, tt), r)
]

segment-Yields : (p : PathParser) → Yields IsSegment p (segment p)
unfolding segment
segment-Yields p = go (name p) (name-Yields p)
  where
    go :
        (m : Result PathError (Bytes × PathParser))
        → Yields IsName p m
        → Yields IsSegment p (m >>= after_key)
    go (err e) b = b
    go (ok (key, q)) (k, r) = after_key-Yields p q key k r

abbrev Parses : PathParser → Result PathError FieldPath → Type 0
Parses p (ok path) = IsPath path
Parses p (err e) = Blames p e

-- Behind a segment: the dot, and the segments that the rest of the loop reads.
dotted : ℕ → Segment → PathParser → Result PathError FieldPath
dotted fuel seg q = do r ← expect q b'.'; path ← segments fuel r; ok (seg ∷ path)

module _ (fuel : ℕ)
    (rec : (r : PathParser) → length r.rest < fuel → Parses r (segments fuel r)) where
  dotted-Parses :
      (p q : PathParser) (seg : Segment)
      → length p.rest < suc fuel
      → IsSegment seg
      → Reads p q
      → Parses p (dotted fuel seg q)
  unfolding dotted
  dotted-Parses p q seg h w r = go (expect q b'.') (expect-Advances q b'.' (omega arith))
    where
      last :
          (x : PathParser) (m : Result PathError FieldPath)
          → Reads p x
          → Parses x m
          → Parses p (m >>= λ path. ok (seg ∷ path))
      last x (err e) r' b = Blames-later r' b
      last x (ok path) r' b = ((cc), (w, b.1))

      go :
          (m : Result PathError PathParser)
          → Advances q m
          → Parses p (m >>= λ r. segments fuel r >>= λ path. ok (seg ∷ path))
      go (err e) b = Blames-later r b
      go (ok x) b = last x (segments fuel x) (Reads-trans r b) (rec x (omega arith))

  segment-Parses :
      (p : PathParser)
      → length p.rest < suc fuel
      → Parses p (segment p >>= λ (seg, q). if eof q then ok (seg ∷ []) else dotted fuel seg q)
  segment-Parses p h = go (segment p) (segment-Yields p)
    where
      go :
          (m : Result PathError (Segment × PathParser))
          → Yields IsSegment p m
          → Parses p (m >>= λ (seg, q). if eof q then ok (seg ∷ []) else dotted fuel seg q)
      go (err e) b = b
      go (ok (seg, q)) (w, r) = elim (Bool-cases (eof q)) [
        | inl done ↦ rw (done) ((cc), (w, tt))
        | inr left ↦ rw (left) (dotted-Parses p q seg h w r)
      ]

segments-Parses : (fuel : ℕ) (p : PathParser) → length p.rest < fuel → Parses p (segments fuel p)
unfolding segments dotted
segments-Parses zero p h = absurd (omega arith)
segments-Parses (suc fuel) p h = segment-Parses fuel (segments-Parses fuel) p h

parse_path-Parses : (s : Bytes) → Parses (record { src = s; pos = 0; rest = s }) (parse_path s)
unfolding parse_path
parse_path-Parses s = segments-Parses _ _ (omega arith)

-- A parsed path is well formed, so its text is accepted and read back as the same path.
pub parse_path_sound :
    (s : Bytes) {path : FieldPath}
    → parse_path s ≡ ok path
    → IsPath path × (parse_path (path_string path) ≡ ok path)
parse_path_sound s {path} e =
    let w : IsPath path =
      subst (Parses (record { src = s; pos = 0; rest = s })) e (parse_path-Parses s) in
    (w, parse_path-string path w)

-- The parser always ends within its fuel, and an error names the source and an offset in it.
pub parse_path_error :
    (s : Bytes) {e : PathError}
    → parse_path s ≡ err e
    → (e.path ≡ s) × (e.offset ≤ length s) × (e.msg ≢ no_fuel)
parse_path_error s {e} h =
    let b : Blames (record { src = s; pos = 0; rest = s }) e =
      subst (Parses (record { src = s; pos = 0; rest = s })) h (parse_path-Parses s) in
    (b.path, omega arith, b.fuelled)
