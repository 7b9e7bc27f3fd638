-- ===== src/Fixer/Render/Pieces.antt =====
-- The lines that `render` of internal/fixer/fixer.go cuts its source into.
use mathlib.Core.Path.{subst}
use aegis_ebpf.Base.{
  ℕ, zero, suc, ◌+◌, ◌-◌, ◌≤◌, ◌<◌, ◌≡◌, refl, sym, ◌∙◌, ap, Bool, true, false, ◌&&◌, List, [], ◌∷◌,
  map, ◌++◌, append-nil, append_assoc, Option, none, some, Bytes, arith, length, take, ltb, ◌==◌,
  if◌then◌else◌, Bool-cases, inl, inr, All, ◌⊎◌, ◌↔◌,
}
use aegis_ebpf.Fixer.Render.{
  split_lines, join_lines, skip, slice, is_marker, all_blank, head_line, starts_from,
}
use aegis_ebpf.Fixer.Yaml.{Node, attrs}

pub join-split_lines : (s : Bytes) → join_lines (split_lines s) ≡ s
unfolding split_lines
join-split_lines [] = refl
join-split_lines (c ∷ s) = here (split_lines s) (join-split_lines s)
  where
    here :
        (lines : List Bytes)
        → join_lines lines ≡ s
        → join_lines (elim lines [
          | [] ↦ (c ∷ []) ∷ []
          | line ∷ rest ↦ if c == b'\n' then (c ∷ []) ∷ line ∷ rest else (c ∷ line) ∷ rest
        ])
          ≡ c ∷ s
    here [] e = ap (λ r. c ∷ r) e
    here (line ∷ rest) e = elim (Bool-cases (c == b'\n')) [
      | inl n ↦ rw n (ap (λ r. c ∷ r) e)
      | inr n ↦ rw n (ap (λ r. c ∷ r) e)
    ]

join-take-skip :
    (n : ℕ) (lines : List Bytes)
    → join_lines (take n lines) ++ join_lines (skip n lines) ≡ join_lines lines
join-take-skip zero lines = refl
join-take-skip (suc n) [] = refl
join-take-skip (suc n) (line ∷ lines) =
    append_assoc line (join_lines (take n lines)) (join_lines (skip n lines))
    ∙ ap (λ r. line ++ r) (join-take-skip n lines)

skip-nil : (n : ℕ) → skip n [] ≡ []
skip-nil zero = refl
skip-nil (suc n) = refl

suc_plus : (n m : ℕ) → suc (n + m) ≡ suc n + m
suc_plus n m = omega arith

skip-skip : (m n : ℕ) (lines : List Bytes) → skip m (skip n lines) ≡ skip (n + m) lines
skip-skip m zero lines = ap (λ k. skip k lines) (zero_plus m)
  where
    zero_plus : (k : ℕ) → k ≡ 0 + k
    zero_plus k = omega arith
skip-skip m (suc n) [] = skip-nil m ∙ sym (skip-nil (suc n + m))
skip-skip m (suc n) (line ∷ lines) =
    skip-skip m n lines ∙ ap (λ k. skip k (line ∷ lines)) (suc_plus n m)

take-all : (n : ℕ) (lines : List Bytes) → length lines ≤ n → take n lines ≡ lines
take-all zero [] le = refl
take-all zero (line ∷ lines) le = absurd (omega arith)
take-all (suc n) [] le = refl
take-all (suc n) (line ∷ lines) le = ap (λ r. line ∷ r) (take-all n lines (omega arith))

-- The two parts of what is behind `from`, cut at `next`.
cut :
    (lines : List Bytes) (from next : ℕ)
    → from ≤ next
    → join_lines (slice from next lines) ++ join_lines (skip next lines)
      ≡ join_lines (skip from lines)
cut lines from next le =
    ap (λ k. join_lines (slice from next lines) ++ join_lines k)
      (ap (λ k. skip k lines) (whole from next le) ∙ sym (skip-skip (next - from) from lines))
    ∙ join-take-skip (next - from) (skip from lines)
  where
    whole : (a b : ℕ) → a ≤ b → b ≡ a + (b - a)
    whole a b le = omega arith

length-skip : (n : ℕ) (lines : List Bytes) → length (skip n lines) ≤ length lines - n
length-skip zero lines = omega arith
length-skip (suc n) [] = omega arith
length-skip (suc n) (line ∷ lines) = omega (arith, length-skip n lines)

-- The lines of the documents from `from` on, where `starts` has the starts of those behind the first.
abbrev pub pieces : List Bytes → ℕ → List ℕ → List (List Bytes)
pieces lines from [] = slice from (length lines) lines ∷ []
pieces lines from (next ∷ starts) = slice from next lines ∷ pieces lines next starts

-- The byte is one of those that a marker may have behind its dashes.
abbrev pub IsBlank : ℕ → Type 0
IsBlank c = (c ≡ b' ') ⊎ (c ≡ b'\t') ⊎ (c ≡ b'\r') ⊎ (c ≡ b'\n')

-- Three dashes and blanks.
abbrev pub IsMarker : Bytes → Type 0
IsMarker (c ∷ d ∷ e ∷ s) = (c ≡ b'-') × (d ≡ b'-') × (e ≡ b'-') × All IsBlank s
IsMarker _ = ⊥

all_blank_iff : (s : Bytes) → (all_blank s ≡ true) ↔ All IsBlank s
unfolding all_blank
all_blank_iff [] = (λ _. tt, λ _. refl)
all_blank_iff (c ∷ s) = ground (arith, all_blank_iff s)

pub is_marker_iff : (line : Bytes) → (is_marker line ≡ true) ↔ IsMarker line
unfolding is_marker
is_marker_iff [] = ground arith
is_marker_iff (c ∷ []) = ground arith
is_marker_iff (c ∷ d ∷ []) = ground arith
is_marker_iff (c ∷ d ∷ e ∷ s) = ground (arith, all_blank_iff s)

-- The starts go up, and each of them is that of a marker.
abbrev IsRising : List Bytes → ℕ → List ℕ → Type 0
IsRising lines from [] = Unit
IsRising lines from (next ∷ starts) =
    (from < next)
    × (next < length lines)
    × IsMarker (head_line (skip next lines))
    × IsRising lines next starts

pub join-pieces :
    (lines : List Bytes) (from : ℕ) (starts : List ℕ)
    → IsRising lines from starts
    → join_lines (map join_lines (pieces lines from starts)) ≡ join_lines (skip from lines)
join-pieces lines from [] r =
    append-nil (join_lines (slice from (length lines) lines))
    ∙ ap join_lines (take-all (length lines - from) (skip from lines) (length-skip from lines))
join-pieces lines from (next ∷ starts) (lt, _, _, r) =
    ap (λ t. join_lines (slice from next lines) ++ t) (join-pieces lines next starts r)
    ∙ cut lines from next (omega (arith, lt))

some_starts :
    (start : ℕ) (rest : Option (List ℕ)) (b : Bool) (starts : List ℕ)
    → (if b then (elim rest [ none ↦ none | some more ↦ some (start ∷ more) ]) else none)
      ≡ some starts
    → (b ≡ true) × ((more : List ℕ) × (rest ≡ some more) × (starts ≡ start ∷ more))
some_starts start none true starts e = absurd (cc)
some_starts start (some more) true starts e = (refl, (more, refl, (cc)))
some_starts start rest false starts e = absurd (cc)

pub starts_from-IsRising :
    (lines : List Bytes) (from : ℕ) (docs : List Node) (starts : List ℕ)
    → starts_from lines from docs ≡ some starts
    → IsRising lines from starts × (length starts ≡ length docs)
unfolding starts_from
starts_from-IsRising lines from [] starts e =
    let none_left : [] ≡ starts = cc in
    subst (λ (r : List ℕ). IsRising lines from r × (length r ≡ 0)) none_left (tt, refl)
starts_from-IsRising lines from (doc ∷ docs) starts e =
    let start = (attrs doc).line - 1 in
    let (b, (more, e', same)) = some_starts start (starts_from lines start docs) _ starts e in
    let (r, n) = starts_from-IsRising lines start docs more e' in
    let (up, inside, marker) =
      first from start (length lines) (is_marker (head_line (skip start lines))) b in
    subst (λ (s : List ℕ). IsRising lines from s × (length s ≡ suc (length docs))) (sym same)
      ((up, inside, (is_marker_iff _).0 marker, r), ap suc n)
  where
    first :
        (a b n : ℕ) (d : Bool) → (ltb a b && ltb b n && d) ≡ true → (a < b) × (b < n) × (d ≡ true)
    first a b n d e = ground (arith, e)

-- The starts are the lines that the decoder gives for the documents, counted from 0 in place of 1.
pub starts_from-lines :
    (lines : List Bytes) (from : ℕ) (docs : List Node) (starts : List ℕ)
    → starts_from lines from docs ≡ some starts
    → starts ≡ map (λ (doc : Node). (attrs doc).line - 1) docs
unfolding starts_from
starts_from-lines lines from [] starts e = cc
starts_from-lines lines from (doc ∷ docs) starts e =
    let start = (attrs doc).line - 1 in
    let (_, (more, e', same)) = some_starts start (starts_from lines start docs) _ starts e in
    same ∙ ap (◌∷◌ start) (starts_from-lines lines start docs more e')

-- The first line is a marker.
abbrev pub Begins : List Bytes → Type 0
Begins [] = ⊥
Begins (line ∷ _) = IsMarker line

-- Each piece but the first one begins with a marker.
abbrev pub LaterBegin : List (List Bytes) → Type 0
LaterBegin [] = Unit
LaterBegin (_ ∷ ps) = All Begins ps

take-Begins :
    (n : ℕ) (lines : List Bytes) → 0 < n → IsMarker (head_line lines) → Begins (take n lines)
take-Begins zero lines lt m = absurd (omega (arith, lt))
take-Begins (suc n) [] lt m = m
take-Begins (suc n) (line ∷ lines) lt m = m

pieces-Begins :
    (lines : List Bytes) (from : ℕ) (starts : List ℕ)
    → from < length lines
    → IsMarker (head_line (skip from lines))
    → IsRising lines from starts
    → All Begins (pieces lines from starts)
pieces-Begins lines from [] lt m r = (take-Begins _ _ (omega (arith, lt)) m, tt)
pieces-Begins lines from (next ∷ starts) lt m (up, inside, m', r) =
    (take-Begins _ _ (omega (arith, up)) m, pieces-Begins lines next starts inside m' r)

pub pieces-LaterBegin :
    (lines : List Bytes) (from : ℕ) (starts : List ℕ)
    → IsRising lines from starts
    → LaterBegin (pieces lines from starts)
pieces-LaterBegin lines from [] r = tt
pieces-LaterBegin lines from (next ∷ starts) (up, inside, m, r) =
    pieces-Begins lines next starts inside m r
