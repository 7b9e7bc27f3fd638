-- ===== src/Agent/Ids/Distinct.antt =====
-- What an ID of `newID` of internal/agent/agent.go tells of the bytes behind it.
use aegis_ebpf.Base.{
  ℕ, zero, suc, ◌+◌, ◌/◌, ◌%◌, ◌^◌, ◌<◌, ◌≡◌, ◌↔◌, refl, sym, ap, ◌∙◌, true, false, [], ◌∷◌, ◌++◌,
  Bytes, arith, take, drop, take-append-drop, ◌==◌, if◌then◌else◌,
}
use aegis_ebpf.Agent.Ids.{stamp, marked, lower_digit, hex, id_text, id_at}
use aegis_ebpf.Agent.Ids.Order.{id_at-before}
use aegis_ebpf.Go.Url.{AreBytes}
use aegis_ebpf.Agent.Listing.{bytes_before}

-- A text without its dashes.
undashed : Bytes → Bytes
undashed [] = []
undashed (c ∷ s) = let rest = undashed s in if c == b'-' then rest else c ∷ rest

undashed_group : (b s : Bytes) → undashed (hex b ++ b'-' ∷ s) ≡ hex b ++ undashed s
unfolding undashed hex
undashed_group [] s = refl
undashed_group (c ∷ b) s = ground (arith, undashed_group b s)

undashed_last : (b : Bytes) → undashed (hex b) ≡ hex b
unfolding undashed hex
undashed_last [] = refl
undashed_last (c ∷ b) = ground (arith, undashed_last b)

hex-append : (a b : Bytes) → hex (a ++ b) ≡ hex a ++ hex b
unfolding hex
hex-append [] b = refl
hex-append (c ∷ a) b = ap (λ s. lower_digit (c / 16) ∷ lower_digit (c % 16) ∷ s) (hex-append a b)

drop-drop : (n k j : ℕ) (b : Bytes) → j ≡ n + k → drop j b ≡ drop k (drop n b)
drop-drop zero k j b e = ap (λ i. drop i b) (omega (arith, e))
drop-drop (suc n) k zero b e = absurd (omega (arith, e))
drop-drop (suc n) zero (suc j) [] e = refl
drop-drop (suc n) (suc k) (suc j) [] e = refl
drop-drop (suc n) k (suc j) (c ∷ b) e = drop-drop n k j b (omega (arith, e))

-- A group of the text, before the rest.
undashed_step :
    (n k j : ℕ) (b s : Bytes)
    → j ≡ n + k
    → undashed s ≡ hex (drop j b)
    → undashed (hex (take k (drop n b)) ++ b'-' ∷ s) ≡ hex (drop n b)
undashed_step n k j b s e h =
    undashed_group (take k (drop n b)) s
    ∙ ap (λ t. hex (take k (drop n b)) ++ t) (h ∙ ap hex (drop-drop n k j b e))
    ∙ sym (hex-append (take k (drop n b)) (drop k (drop n b)))
    ∙ ap hex (take-append-drop k (drop n b))

-- The groups of an ID, put together, spell its bytes.
undashed-id_text : (b : Bytes) → undashed (id_text b) ≡ hex b
unfolding id_text
undashed-id_text b = undashed_step 0 4 4 b _ refl (
    undashed_step 4 2 6 b _ refl
      (undashed_step 6 2 8 b _ refl (undashed_step 8 2 10 b _ refl (undashed_last (drop 10 b)))))

digit_injective : (a b : ℕ) → a < 16 → b < 16 → lower_digit a ≡ lower_digit b → a ≡ b
digit_injective a b la lb e = ground (arith, e, la, lb)

hex_injective : (a b : Bytes) → AreBytes a → AreBytes b → hex a ≡ hex b → a ≡ b
unfolding hex
hex_injective [] [] h k e = refl
hex_injective [] (d ∷ b) h k e = absurd (cc)
hex_injective (c ∷ a) [] h k e = absurd (cc)
hex_injective (c ∷ a) (d ∷ b) (lc, h) (ld, k) e =
    let hi = digit_injective (c / 16) (d / 16) (omega (arith, lc)) (omega (arith, ld)) (cc) in
    let lo = digit_injective (c % 16) (d % 16) (omega arith) (omega arith) (cc) in
    let same : c ≡ d = omega (arith, hi, lo) in let rest = hex_injective a b h k (cc) in cc

stamp-AreBytes : (k ms : ℕ) (b : Bytes) → AreBytes b → AreBytes (stamp k ms ++ b)
unfolding stamp
stamp-AreBytes zero ms b h = h
stamp-AreBytes (suc k) ms b h = (omega arith, stamp-AreBytes k ms b h)

marked-AreBytes : (r : Bytes) → AreBytes r → AreBytes (marked r)
unfolding marked
marked-AreBytes [] h = h
marked-AreBytes (a ∷ []) h = h
marked-AreBytes (a ∷ b ∷ []) h = h
marked-AreBytes (a ∷ b ∷ c ∷ r) (la, (lb, (lc, h))) = (omega arith, (lb, (omega arith, h)))

behind_stamp : (k m n : ℕ) (a b : Bytes) → stamp k m ++ a ≡ stamp k n ++ b → a ≡ b
unfolding stamp
behind_stamp zero m n a b e = e
behind_stamp (suc k) m n a b e = behind_stamp k m n a b (cc)

irreflexive : (s : Bytes) → bytes_before s s ≡ false
unfolding bytes_before
irreflexive [] = refl
irreflexive (c ∷ s) = ground (arith, irreflexive s)

id_text_injective : (a b : Bytes) → AreBytes a → AreBytes b → id_text a ≡ id_text b → a ≡ b
id_text_injective a b h k e =
    hex_injective a b h k (sym (undashed-id_text a) ∙ ap undashed e ∙ undashed-id_text b)

not_later : (m n : ℕ) (r s : Bytes) → n < 2 ^ 48 → id_at m r ≡ id_at n s → (m < n) → ⊥
not_later m n r s le e lt =
    let before = id_at-before m n r s lt le in let never = irreflexive (id_at n s) in cc

-- The same random bits, apart from the high half of the first byte and the two high bits of the third one.
abbrev pub SameBits : Bytes → Bytes → Type 0
SameBits (a ∷ b ∷ c ∷ r) (a' ∷ b' ∷ c' ∷ s) =
    (a % 16 ≡ a' % 16) × (b ≡ b') × (c % 64 ≡ c' % 64) × (r ≡ s)
SameBits r s = r ≡ s

marked-SameBits : (r s : Bytes) → marked r ≡ marked s → SameBits r s
unfolding marked
marked-SameBits (a ∷ b ∷ c ∷ r) (a' ∷ b' ∷ c' ∷ s) e =
    let low : a % 16 + 0x70 ≡ a' % 16 + 0x70 = cc in
    let high : c % 64 + 0x80 ≡ c' % 64 + 0x80 = cc in
    (omega (arith, low), (cc), omega (arith, high), (cc))
marked-SameBits (a ∷ b ∷ c ∷ r) [] e = absurd (cc)
marked-SameBits (a ∷ b ∷ c ∷ r) (_ ∷ []) e = absurd (cc)
marked-SameBits (a ∷ b ∷ c ∷ r) (_ ∷ _ ∷ []) e = absurd (cc)
marked-SameBits [] [] e = e
marked-SameBits [] (_ ∷ []) e = e
marked-SameBits [] (_ ∷ _ ∷ []) e = e
marked-SameBits [] (_ ∷ _ ∷ _ ∷ s) e = absurd (cc)
marked-SameBits (a ∷ []) [] e = e
marked-SameBits (a ∷ []) (_ ∷ []) e = e
marked-SameBits (a ∷ []) (_ ∷ _ ∷ []) e = e
marked-SameBits (a ∷ []) (_ ∷ _ ∷ _ ∷ s) e = absurd (cc)
marked-SameBits (a ∷ b ∷ []) [] e = e
marked-SameBits (a ∷ b ∷ []) (_ ∷ []) e = e
marked-SameBits (a ∷ b ∷ []) (_ ∷ _ ∷ []) e = e
marked-SameBits (a ∷ b ∷ []) (_ ∷ _ ∷ _ ∷ s) e = absurd (cc)

SameBits-marked : (r s : Bytes) → SameBits r s → marked r ≡ marked s
unfolding marked
SameBits-marked (a ∷ b ∷ c ∷ r) (a' ∷ b' ∷ c' ∷ s) (low, mid, high, rest) = cc
SameBits-marked (a ∷ b ∷ c ∷ r) [] e = ap marked e
SameBits-marked (a ∷ b ∷ c ∷ r) (_ ∷ []) e = ap marked e
SameBits-marked (a ∷ b ∷ c ∷ r) (_ ∷ _ ∷ []) e = ap marked e
SameBits-marked [] s e = ap marked e
SameBits-marked (a ∷ []) s e = ap marked e
SameBits-marked (a ∷ b ∷ []) s e = ap marked e

-- Up to the year 10889 and for random numbers that are bytes: an ID of an earlier millisecond sorts before
-- one of a later millisecond, and two IDs are the same exactly when they were made in the same millisecond
-- with the same random bits, apart from the high half of the first byte and the two high bits of the third
-- one, which the version and the variant take the place of.
pub id_at_lem :
    (m n : ℕ) (r s : Bytes)
    → m < 2 ^ 48
    → n < 2 ^ 48
    → AreBytes r
    → AreBytes s
    → (m < n → bytes_before (id_at m r) (id_at n s) ≡ true)
      × ((id_at m r ≡ id_at n s) ↔ ((m ≡ n) × SameBits r s))
unfolding id_at
id_at_lem m n r s lm ln h k = (
  λ lt. id_at-before m n r s lt ln,
  (
    λ e. (same_time e, marked-SameBits r s (same_bits e)),
    λ (t, bits). same t (SameBits-marked r s bits),
  ),
)
  where
    same_time : id_at m r ≡ id_at n s → m ≡ n
    same_time e = omega (arith, not_later m n r s ln e, not_later n m s r lm (sym e))

    same_bits : id_at m r ≡ id_at n s → marked r ≡ marked s
    same_bits e = behind_stamp 6 m n (marked r) (marked s) (
        id_text_injective (stamp 6 m ++ marked r) (stamp 6 n ++ marked s)
          (stamp-AreBytes 6 m (marked r) (marked-AreBytes r h))
          (stamp-AreBytes 6 n (marked s) (marked-AreBytes s k)) e)

    same : m ≡ n → marked r ≡ marked s → id_at m r ≡ id_at n s
    same t e = cc
