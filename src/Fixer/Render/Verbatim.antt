-- ===== src/Fixer/Render/Verbatim.antt =====
-- `render` of internal/fixer/fixer.go copies: the pieces of the source that it cuts out for its
-- documents are the whole source.
use aegis_ebpf.Fixer.Render.Pieces.{
  join-split_lines, pieces, join-pieces, starts_from-IsRising, starts_from-lines, IsMarker,
  is_marker_iff, LaterBegin, pieces-LaterBegin,
}
use mathlib.Core.Path.{subst}
use aegis_ebpf.Base.{
  ℕ, suc, ◌-◌, ◌≡◌, ◌⊎◌, refl, ◌∙◌, ap, Bool, true, false, List, [], ◌∷◌, ◌++◌, append-nil, some,
  Bytes, Result, ok, >>=-ok, arith, length, if◌then◌else◌, inl, inr, map, Bool-cases,
}
use aegis_ebpf.Fixer.Operation.{ApplyError}
use aegis_ebpf.Fixer.Render.{
  split_lines, join_lines, slice, is_marker, head_line, starts_from, later_docs, render_document,
  render_parts, render_at, render, encode,
}
use aegis_ebpf.Fixer.Yaml.{Node, attrs, Yaml}

-- The marker that is written before a changed document: the first line of its piece, where that is one.
abbrev pub MarkerOf : List Bytes → Bytes → Type 0
MarkerOf [] marker = marker ≡ []
MarkerOf (line ∷ _) marker =
    (IsMarker line × (marker ≡ line)) ⊎ ((IsMarker line → ⊥) × (marker ≡ []))

marker_of :
    (lines : List Bytes)
    → MarkerOf lines (if is_marker (head_line lines) then head_line lines else [])
unfolding is_marker
marker_of [] = refl
marker_of (line ∷ lines) = elim (Bool-cases (is_marker line)) [
  | inl e ↦ rw e (inl ((is_marker_iff line).0 e, refl))
  | inr e ↦ rw e (inr (λ m. true_false ((is_marker_iff line).1 m) e, refl))
]
  where
    true_false : {b : Bool} → b ≡ true → b ≡ false → ⊥
    true_false t f = cc

module _ (y : Yaml) where
  -- What `render` writes: for each document its piece of the source, or, where it has changed, its
  -- marker and its encoding.
  abbrev pub Rendered : List (List Bytes) → List (Node × Bool) → Bytes → Type 0
  Rendered [] [] out = out ≡ []
  Rendered [] (_ ∷ _) out = ⊥
  Rendered (_ ∷ _) [] out = ⊥
  Rendered (piece ∷ ps) ((doc, false) ∷ docs) out =
      (rest : Bytes) × (out ≡ join_lines piece ++ rest) × Rendered ps docs rest
  Rendered (piece ∷ ps) ((doc, true) ∷ docs) out =
      (marker text rest : Bytes) × MarkerOf piece marker
      × (encode y doc ≡ ok text)
      × (out ≡ (marker ++ text) ++ rest)
      × Rendered ps docs rest

  Rendered-one :
      (lines : List Bytes) (doc : Node) (changed : Bool) (ps : List (List Bytes))
      (docs : List (Node × Bool)) (text rest : Bytes)
      → render_document y lines (doc, changed) ≡ ok text
      → Rendered ps docs rest
      → Rendered (lines ∷ ps) ((doc, changed) ∷ docs) (text ++ rest)
  unfolding render_document
  Rendered-one lines doc false ps docs text rest e r =
      (rest, ap (λ t. t ++ rest) (copied (join_lines lines) text e), r)
    where
      copied : (a b : Bytes) → ◌≡◌ {A = Result ApplyError Bytes} (ok a) (ok b) → b ≡ a
      copied a b e = cc
  Rendered-one lines doc true ps docs text rest e r =
      let (t, enc, done) = >>=-ok (encode y doc) _ e in
      (
        if is_marker (head_line lines) then head_line lines else [],
        t,
        rest,
        marker_of lines,
        enc,
        ap (λ u. u ++ rest) (copied _ text done),
        r,
      )
    where
      copied : (a b : Bytes) → ◌≡◌ {A = Result ApplyError Bytes} (ok a) (ok b) → b ≡ a
      copied a b e = cc

  render_parts-Rendered :
      (lines : List Bytes) (from : ℕ) (starts : List ℕ) (doc : Node) (changed : Bool)
      (docs : List (Node × Bool)) (out : Bytes)
      → length starts ≡ length docs
      → render_parts y lines from starts ((doc, changed) ∷ docs) ≡ ok out
      → Rendered (pieces lines from starts) ((doc, changed) ∷ docs) out
  unfolding render_parts
  render_parts-Rendered lines from [] doc changed [] out n e =
      subst (Rendered (pieces lines from []) ((doc, changed) ∷ [])) (append-nil out)
        (Rendered-one (slice from (length lines) lines) doc changed [] [] out [] e refl)
  render_parts-Rendered lines from [] doc changed (_ ∷ _) out n e = absurd (omega arith)
  render_parts-Rendered lines from (next ∷ starts) doc changed [] out n e = absurd (omega arith)
  render_parts-Rendered lines from (next ∷ starts) doc changed ((doc', changed') ∷ docs) out n e =
      let (text, here, e') =
        >>=-ok (render_document y (slice from next lines) (doc, changed)) _ e in
      let (rest, later, done) =
        >>=-ok (render_parts y lines next starts ((doc', changed') ∷ docs)) _ e' in
      let same : text ++ rest ≡ out = cc in
      subst
        (Rendered (pieces lines from (next ∷ starts)) ((doc, changed) ∷ (doc', changed') ∷ docs))
        same
        (Rendered-one (slice from next lines) doc changed (pieces lines next starts)
          ((doc', changed') ∷ docs) text rest here
          (render_parts-Rendered lines next starts doc' changed' docs rest (omega arith) later))

  length-map :
      (docs : List (Node × Bool)) → length (map (λ (p : Node × Bool). p.0) docs) ≡ length docs
  length-map [] = refl
  length-map (_ ∷ docs) = ap suc (length-map docs)

  -- Where `render` finds the start of each document behind the first one, it cuts the source into one
  -- piece for each document, with nothing left over: each piece but the first one starts at the line that
  -- the decoder gives for its document, and begins with a marker. A document that has not changed is written
  -- as its piece, and one that has changed as its encoding, behind the first line of its piece if that line
  -- is a marker.
  pub render_copies :
      (src : Bytes) (doc : Node) (changed : Bool) (docs : List (Node × Bool)) (starts : List ℕ)
      (out : Bytes)
      → starts_from (split_lines src) 0 (later_docs ((doc, changed) ∷ docs)) ≡ some starts
      → render y src ((doc, changed) ∷ docs) ≡ ok out
      → (starts ≡ map (λ (p : Node × Bool). (attrs p.0).line - 1) docs)
        × (join_lines (map join_lines (pieces (split_lines src) 0 starts)) ≡ src)
        × LaterBegin (pieces (split_lines src) 0 starts)
        × Rendered (pieces (split_lines src) 0 starts) ((doc, changed) ∷ docs) out
  unfolding render render_at
  render_copies src doc changed docs starts out found e =
      let (rising, n) =
        starts_from-IsRising (split_lines src) 0 (later_docs ((doc, changed) ∷ docs)) starts
          found in
      (
        starts_from-lines (split_lines src) 0 (later_docs ((doc, changed) ∷ docs)) starts found
            ∙ line_of docs,
        join-pieces (split_lines src) 0 starts rising ∙ join-split_lines src,
        pieces-LaterBegin (split_lines src) 0 starts rising,
        render_parts-Rendered (split_lines src) 0 starts doc changed docs out (n ∙ length-map docs)
            (rw found at e),
      )
    where
      line_of :
          (docs : List (Node × Bool))
          → map (λ (doc : Node). (attrs doc).line - 1) (map (λ (p : Node × Bool). p.0) docs)
            ≡ map (λ (p : Node × Bool). (attrs p.0).line - 1) docs
      line_of [] = refl
      line_of (d ∷ docs) = ap (◌∷◌ ((attrs d.0).line - 1)) (line_of docs)
