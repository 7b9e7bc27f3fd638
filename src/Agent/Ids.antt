-- ===== src/Agent/Ids.antt =====
-- internal/agent/agent.go: `newID`, a UUID of version 7.
pub mod Order
pub mod Distinct
use aegis_ebpf.Base.{
  ℕ, zero, suc, ◌+◌, ◌-◌, ◌*◌, ◌/◌, ◌%◌, ◌^◌, List, [], ◌∷◌, ◌++◌, Bytes, ltb, take, drop,
  if◌then◌else◌,
}

-- `b[i] = byte(ms >> (40 - 8*i))` for `i` from 0 to 5: `k` more bytes.
unfoldable pub stamp : ℕ → ℕ → Bytes
stamp zero ms = []
stamp (suc k) ms = ((ms / 2 ^ (8 * k)) % 2 ^ 8) ∷ stamp k ms

-- The random bytes, from `b[6]` on, with the version and the variant written over their bits.
unfoldable pub marked : Bytes → Bytes
marked (a ∷ b ∷ c ∷ random) = (a % 16 + 0x70) ∷ b ∷ (c % 64 + 0x80) ∷ random
marked random = random

abbrev pub lower_digit : ℕ → ℕ
lower_digit n = if ltb n 10 then b'0' + n else b'a' + (n - 10)

-- `%x` of a slice of bytes.
unfoldable pub hex : Bytes → Bytes
hex [] = []
hex (b ∷ bs) = lower_digit (b / 16) ∷ lower_digit (b % 16) ∷ hex bs

-- `fmt.Sprintf("%x-%x-%x-%x-%x", b[0:4], b[4:6], b[6:8], b[8:10], b[10:])`.
unfoldable pub id_text : Bytes → Bytes
id_text b =
    hex (take 4 b)
    ++ b'-'
      ∷ (hex (take 2 (drop 4 b))
          ++ b'-'
            ∷ (hex (take 2 (drop 6 b))
                ++ b'-' ∷ (hex (take 2 (drop 8 b)) ++ b'-' ∷ hex (drop 10 b))))

-- `newID` at the millisecond `ms`, with the ten bytes that `rand.Read` gives it.
unfoldable pub id_at : ℕ → Bytes → Bytes
id_at ms random = id_text (stamp 6 ms ++ marked random)
