-- ===== src/Go/Text.antt =====
-- `strings.HasPrefix`, `slices.Contains` and `slices.Index` on strings, and
-- `utf8.RuneCountInString`.
use aegis_ebpf.Base.{
  ◌≡◌, refl, ◌++◌, arith, ℕ, zero, suc, ◌+◌, Bool, true, false, ◌&&◌, ◌||◌, List, [], ◌∷◌, Option,
  none, some, leb, ltb, ◌==◌, ◌=b◌, if◌then◌else◌, Bytes,
}

-- The text behind a prefix.
unfoldable pub strip_prefix : Bytes → Bytes → Option Bytes
strip_prefix [] s = some s
strip_prefix (p ∷ ps) [] = none
strip_prefix (p ∷ ps) (c ∷ s) = if p == c then strip_prefix ps s else none

unfoldable pub has_prefix : Bytes → Bytes → Bool
unfolding strip_prefix
has_prefix p s = elim (strip_prefix p s) [ none ↦ false | some _ ↦ true ]

unfoldable pub contains : List Bytes → Bytes → Bool
contains [] s = false
contains (x ∷ xs) s = x =b s || contains xs s

-- One more than `slices.Index`: 0 where that is -1.
unfoldable pub position : List Bytes → Bytes → ℕ
position [] s = 0
position (x ∷ xs) s =
    let rest = position xs s in if x =b s then 1 else if rest == 0 then 0 else rest + 1

continues : ℕ → ℕ → Bytes → Bool
continues lo hi [] = false
continues lo hi (c ∷ _) = leb lo c && leb c hi

-- The bytes of a sequence of two, three or four that follow the first; `lo` and `hi` bound the
-- second, and any continuation byte may follow it.
one_more : Bytes → ℕ
unfolding continues
one_more s = if continues 0x80 0xbf s then 1 else 0

two_more : ℕ → ℕ → Bytes → ℕ
unfolding continues
two_more lo hi [] = 0
two_more lo hi (c ∷ s) = if continues lo hi (c ∷ s) && continues 0x80 0xbf s then 2 else 0

three_more : ℕ → ℕ → Bytes → ℕ
unfolding continues
three_more lo hi [] = 0
three_more lo hi (c ∷ []) = 0
three_more lo hi (c ∷ d ∷ s) =
    if continues lo hi (c ∷ []) && continues 0x80 0xbf (d ∷ []) && continues 0x80 0xbf s
    then 3
    else 0

-- The bytes of the character that begins with `c`, and with `s` behind it, but the first. An
-- invalid sequence counts as one character of one byte.
trailing : ℕ → Bytes → ℕ
unfolding one_more two_more three_more
trailing c s =
    if ltb c 0xc2
    then 0
    else if leb c 0xdf
    then one_more s
    else if c == 0xe0
    then two_more 0xa0 0xbf s
    else if c == 0xed
    then two_more 0x80 0x9f s
    else if leb c 0xef
    then two_more 0x80 0xbf s
    else if c == 0xf0
    then three_more 0x90 0xbf s
    else if leb c 0xf3
    then three_more 0x80 0xbf s
    else if c == 0xf4
    then three_more 0x80 0x8f s
    else 0

-- The characters of a text of which the first bytes are still to be skipped.
rune_count_from : ℕ → Bytes → ℕ
rune_count_from skip [] = 0
rune_count_from zero (c ∷ s) = suc (rune_count_from (trailing c s) s)
rune_count_from (suc skip) (c ∷ s) = rune_count_from skip s

unfoldable pub rune_count : Bytes → ℕ
unfolding rune_count_from trailing
rune_count = rune_count_from 0

prepend : ℕ → Option (Bytes × Bytes) → Option (Bytes × Bytes)
prepend c none = none
prepend c (some (before, after)) = some (c ∷ before, after)

at_separator : Option Bytes → Option (Bytes × Bytes) → Option (Bytes × Bytes)
at_separator (some after) later = some ([], after)
at_separator none later = later

-- `strings.Cut`: what stands before and after the first separator.
unfoldable pub cut : Bytes → Bytes → Option (Bytes × Bytes)
unfolding prepend at_separator strip_prefix
cut sep [] = at_separator (strip_prefix sep []) none
cut sep (c ∷ s) = at_separator (strip_prefix sep (c ∷ s)) (prepend c (cut sep s))

strip_prefix_is : (p s after : Bytes) → strip_prefix p s ≡ some after → s ≡ p ++ after
unfolding strip_prefix
strip_prefix_is [] s after e = cc
strip_prefix_is (c ∷ p) [] after e = absurd (cc)
strip_prefix_is (c ∷ p) (d ∷ s) after e = ground (arith, e, strip_prefix_is p s after)

cut_at :
    (sep s before after : Bytes) (o : Option Bytes) (later : Option (Bytes × Bytes))
    → strip_prefix sep s ≡ o
    → (later ≡ some (before, after) → s ≡ before ++ (sep ++ after))
    → at_separator o later ≡ some (before, after)
    → s ≡ before ++ (sep ++ after)
unfolding at_separator
cut_at sep s before after none later e h k = h k
cut_at sep s before after (some rest) later e h k = let here = strip_prefix_is sep s rest e in cc

prepend_is :
    (c : ℕ) (o : Option (Bytes × Bytes)) (before after : Bytes)
    → prepend c o ≡ some (before, after)
    → (b : Bytes) × (before ≡ c ∷ b) × (o ≡ some (b, after))
unfolding prepend
prepend_is c none before after e = absurd (cc)
prepend_is c (some (b, a)) before after e = (b, cc, cc)

-- The parts make up the text.
pub cut_is :
    (sep s before after : Bytes) → cut sep s ≡ some (before, after) → s ≡ before ++ (sep ++ after)
unfolding cut
cut_is sep [] before after e =
    cut_at sep [] before after (strip_prefix sep []) none refl (λ n. absurd (cc)) e
cut_is sep (c ∷ s) before after e =
    cut_at sep (c ∷ s) before after (strip_prefix sep (c ∷ s)) (prepend c (cut sep s)) refl
      (λ later.
        let (b, same, deeper) = prepend_is c (cut sep s) before after later in
        let rest = cut_is sep s b after deeper in cc)
      e
