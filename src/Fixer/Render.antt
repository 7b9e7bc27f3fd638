-- ===== src/Fixer/Render.antt =====
-- internal/fixer/fixer.go: `render`, `encode` and `styleOf`.
pub mod Verbatim
pub mod Pieces
pub mod Errors
use aegis_ebpf.Base.{
  ℕ, zero, suc, ◌+◌, ◌-◌, Bool, true, false, not, ◌&&◌, ◌||◌, List, [], map, ◌∷◌, ◌++◌, Option,
  none, some, Bytes, codes, Result, ok, err, ◌>>=◌, if◌then◌else◌, ◌==◌, ◌=b◌, leb, ltb, length,
  take,
}
use aegis_ebpf.Fixer.Operation.{ApplyError, encode_failed, require}
use aegis_ebpf.Fixer.Yaml.{
  Node, node, Nodes, nil, cons, attrs, content, mapping_kind, is_mapping, is_sequence, is_empty,
  Yaml,
}

-- `bytes.SplitAfter(src, "\n")`: the lines with their ends. The last one has none, and may be empty.
unfoldable pub split_lines : Bytes → List Bytes
split_lines [] = [] ∷ []
split_lines (c ∷ s) = elim (split_lines s) [
  | [] ↦ (c ∷ []) ∷ []
  | line ∷ lines ↦ if c == b'\n' then (c ∷ []) ∷ line ∷ lines else (c ∷ line) ∷ lines
]

-- `bytes.Join(lines, nil)`.
abbrev pub join_lines : List Bytes → Bytes
join_lines [] = []
join_lines (line ∷ lines) = line ++ join_lines lines

abbrev pub skip : ℕ → List Bytes → List Bytes
skip zero lines = lines
skip (suc n) [] = []
skip (suc n) (_ ∷ lines) = skip n lines

-- `lines[from:to]`.
abbrev pub slice : ℕ → ℕ → List Bytes → List Bytes
slice from to lines = take (to - from) (skip from lines)

abbrev pub is_blank : ℕ → Bool
is_blank c = c == b' ' || c == b'\t' || c == b'\r' || c == b'\n'

unfoldable pub all_blank : Bytes → Bool
all_blank [] = true
all_blank (c ∷ s) = is_blank c && all_blank s

-- `isMarker`: three dashes, and blanks behind them.
unfoldable pub is_marker : Bytes → Bool
unfolding all_blank
is_marker (c ∷ d ∷ e ∷ s) = c == b'-' && d == b'-' && e == b'-' && all_blank s
is_marker _ = false

abbrev pub head_line : List Bytes → Bytes
head_line [] = []
head_line (line ∷ _) = line

-- The starts of the documents behind the one at `from`, where each has its marker.
unfoldable pub starts_from : List Bytes → ℕ → List Node → Option (List ℕ)
starts_from lines from [] = some []
starts_from lines from (doc ∷ docs) =
    let start = (attrs doc).line - 1 in
    let rest = starts_from lines start docs in
    if ltb from start && ltb start (length lines) && is_marker (head_line (skip start lines))
    then elim rest [ none ↦ none | some starts ↦ some (start ∷ starts) ]
    else none

-- The first block mapping and the first block list that `styleOf` has found.
pub record Found : Type 0 where
  pub indent : Option ℕ
  pub compact : Option Bool

abbrev pub is_none {ℓ} : {A : Type ℓ} → Option A → Bool
is_none none = true
is_none (some _) = false

see_block : Node → Node → Found → Found
see_block k v s =
    if is_mapping v && is_none s.indent
    then (if leb ((attrs k).column + 2) (attrs v).column
          && leb (attrs v).column ((attrs k).column + 8)
        then record s { indent = some ((attrs v).column - (attrs k).column) }
        else s)
    else if is_sequence v && is_none s.compact
    then record s { compact = some ((attrs v).column == (attrs k).column) }
    else s

-- The loop over the pairs of a block mapping.
unfoldable pub scan_pairs : Found → Nodes → Found
unfolding see_block
scan_pairs s nil = s
scan_pairs s (cons k nil) = s
scan_pairs s (cons k (cons v rest)) =
    let passed =
      (attrs v).style.flow || is_empty (content v) || leb (attrs v).line (attrs k).line in
    scan_pairs (if passed then s else see_block k v s) rest

-- `visit`, and its loop over the children.
unfoldable mutual
  pub visit : Node → Found → Found
  visit (node k a c) s =
      visit_all c (if mapping_kind k && not a.style.flow then scan_pairs s c else s)

  pub visit_all : Nodes → Found → Found
  visit_all nil s = s
  visit_all (cons n ns) s =
      let visited = visit n s in
      visit_all ns (if is_none s.indent || is_none s.compact then visited else s)

abbrev pub or_else {ℓ} : {A : Type ℓ} → A → Option A → A
or_else a none = a
or_else a (some b) = b

-- `styleOf`.
unfoldable pub style_of : Node → ℕ × Bool
unfolding visit
style_of doc =
    let found = visit doc (record { indent = none; compact = none }) in
    (or_else 2 found.indent, or_else false found.compact)

abbrev pub later_docs : List (Node × Bool) → List Node
later_docs [] = []
later_docs (_ ∷ docs) = map (λ p. p.0) docs

module _ (y : Yaml) where
  open y use {encode_document}

  -- `encode`.
  unfoldable pub encode : Node → Result ApplyError Bytes
  unfolding style_of
  encode doc =
      let (indent, compact) = style_of doc in
      require encode_failed (encode_document indent compact doc)

  -- The text of one document whose lines are `lines`: those lines if it has not changed, and else its
  -- encoding, behind its marker.
  unfoldable pub render_document : List Bytes → Node × Bool → Result ApplyError Bytes
  render_document lines (doc, false) = ok (join_lines lines)
  render_document lines (doc, true) = do
    text ← encode doc
    ok ((if is_marker (head_line lines) then head_line lines else []) ++ text)

  -- The documents from `from` on, where `starts` has the starts of those behind the first.
  unfoldable pub render_parts :
      List Bytes → ℕ → List ℕ → List (Node × Bool) → Result ApplyError Bytes
  render_parts lines from starts [] = ok []
  render_parts lines from [] (doc ∷ docs) = render_document (slice from (length lines) lines) doc
  render_parts lines from (next ∷ starts) (doc ∷ docs) = do
    text ← render_document (slice from next lines) doc
    rest ← render_parts lines next starts docs
    ok (text ++ rest)

  -- Every document encoded again, with markers between them.
  unfoldable pub encode_all : Bool → List (Node × Bool) → Result ApplyError Bytes
  encode_all first [] = ok []
  encode_all first ((doc, _) ∷ docs) = do
    text ← encode doc
    rest ← encode_all false docs
    ok ((if first then [] else codes "---\n") ++ (text ++ rest))

  unfoldable pub render_at :
      List Bytes → List (Node × Bool) → Option (List ℕ) → Result ApplyError Bytes
  render_at lines docs none = encode_all true docs
  render_at lines docs (some starts) = render_parts lines 0 starts docs

  -- `render`.
  unfoldable pub render : Bytes → List (Node × Bool) → Result ApplyError Bytes
  unfolding render_at
  render src docs =
      let lines = split_lines src in render_at lines docs (starts_from lines 0 (later_docs docs))
