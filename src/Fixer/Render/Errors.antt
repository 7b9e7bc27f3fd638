-- ===== src/Fixer/Render/Errors.antt =====
-- `render` of internal/fixer/fixer.go fails only where the encoder does.
use aegis_ebpf.Base.{ℕ, Bool, true, false, List, [], ◌∷◌, Option, none, some, Bytes, length}
use aegis_ebpf.Fixer.Engine.Errors.{IsExpected, FailsWell, well, expected, bind-FailsWell}
use aegis_ebpf.Fixer.Operation.{ApplyError, encode_failed, require}
use aegis_ebpf.Fixer.Render.{
  encode, slice, split_lines, starts_from, later_docs, render, render_at, render_parts,
  render_document, encode_all,
}
use aegis_ebpf.Fixer.Yaml.{Node, Yaml}

module _ (y : Yaml) where
  open y use {Any}

  require-FailsWell :
      {A : Type 0} (e : ApplyError) (o : Option A) → IsExpected e → FailsWell (require e o)
  require-FailsWell e none i = expected e i
  require-FailsWell e (some a) i = well a

  encode-FailsWell : (doc : Node) → FailsWell (encode y doc)
  unfolding encode
  encode-FailsWell doc = require-FailsWell encode_failed _ tt

  render_document-FailsWell :
      (lines : List Bytes) (doc : Node × Bool) → FailsWell (render_document y lines doc)
  unfolding render_document
  render_document-FailsWell lines (doc, false) = well _
  render_document-FailsWell lines (doc, true) =
      bind-FailsWell _ (encode-FailsWell doc) (λ t. well _)

  render_parts-FailsWell :
      (lines : List Bytes) (from : ℕ) (starts : List ℕ) (docs : List (Node × Bool))
      → FailsWell (render_parts y lines from starts docs)
  unfolding render_parts
  render_parts-FailsWell lines from starts [] = well _
  render_parts-FailsWell lines from [] (doc ∷ docs) =
      render_document-FailsWell (slice from (length lines) lines) doc
  render_parts-FailsWell lines from (next ∷ starts) (doc ∷ docs) =
      bind-FailsWell _ (render_document-FailsWell (slice from next lines) doc)
        λ t. bind-FailsWell _ (render_parts-FailsWell lines next starts docs) (λ r. well _)

  encode_all-FailsWell :
      (first : Bool) (docs : List (Node × Bool)) → FailsWell (encode_all y first docs)
  unfolding encode_all
  encode_all-FailsWell first [] = well _
  encode_all-FailsWell first ((doc, c) ∷ docs) =
      bind-FailsWell _ (encode-FailsWell doc)
        λ t. bind-FailsWell _ (encode_all-FailsWell false docs) (λ r. well _)

  pub render-FailsWell : (src : Bytes) (docs : List (Node × Bool)) → FailsWell (render y src docs)
  unfolding render
  render-FailsWell src docs = at (starts_from (split_lines src) 0 (later_docs docs))
    where
      at : (o : Option (List ℕ)) → FailsWell (render_at y (split_lines src) docs o)
      at none = encode_all-FailsWell true docs
      at (some starts) = render_parts-FailsWell (split_lines src) 0 starts docs
