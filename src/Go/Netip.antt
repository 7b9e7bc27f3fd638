-- ===== src/Go/Netip.antt =====
-- `netip.ParseAddr`, as far as its callers look: whether a text is an address, of which family, and
-- with which zone.
use aegis_ebpf.Base.{
  ℕ, zero, suc, ◌+◌, ◌-◌, ◌*◌, Bool, true, false, not, ◌&&◌, ◌||◌, [], ◌∷◌, Option, none, some, leb,
  ltb, ◌==◌, if◌then◌else◌, Bytes, codes, ◌≡◌, refl,
}
use aegis_ebpf.Go.Decimal.{is_digit}

pub data IpAddress : Type 0 where
  v4 : IpAddress
  v6 : Bytes → IpAddress

-- The loop of `parseIPv4Fields`: the dots read, the value and the digits of the open field.
ipv4_fields : ℕ → ℕ → ℕ → Bytes → Bool
ipv4_fields dots val digits [] = dots == 3 && not (digits == 0)
ipv4_fields dots val digits (c ∷ s) =
    let val' = val * 10 + (c - b'0') in
    let digit = ipv4_fields dots val' (digits + 1) s in
    let dot = ipv4_fields (dots + 1) 0 0 s in
    if is_digit c
    then (if digits == 1 && val == 0 || ltb 255 val' then false else digit)
    else if c == b'.'
    then (if digits == 0 || dots == 3 then false else dot)
    else false

is_hex_digit : ℕ → Bool
is_hex_digit c = is_digit c || leb b'a' c && leb c b'f' || leb b'A' c && leb c b'F'

-- The hexadecimal digits at the front, and what is behind them.
hex_span : Bytes → ℕ × Bytes
hex_span [] = (0, [])
hex_span (c ∷ s) =
    let (n, rest) = hex_span s in if is_hex_digit c then (n + 1, rest) else (0, c ∷ s)

-- At the end of the text, `n` bytes are filled; an ellipsis stands for two at least.
ipv6_end : ℕ → Bool → Bool
ipv6_end n gap = if ltb n 16 then gap else n == 16 && not gap

-- Behind a group of `parseIPv6` and its colon; `again` is the next round of the loop.
ipv6_colon : (ℕ → Bool → Bytes → Bool) → ℕ → Bool → Bytes → Bool
ipv6_colon again i gap [] = false
ipv6_colon again i gap (c ∷ rest) =
    if not (c == b':')
    then again i gap (c ∷ rest)
    else if gap
    then false
    else elim rest [ [] ↦ ipv6_end i true | x ∷ xs ↦ again i true (x ∷ xs) ]

-- Behind the digits of a group that begins at `s`, with `i` bytes filled before it.
ipv6_group : (ℕ → Bool → Bytes → Bool) → ℕ → Bool → Bytes → Bytes → Bool
ipv6_group again i gap s [] = ipv6_end (i + 2) gap
ipv6_group again i gap s (c ∷ rest) =
    if c == b'.'
    then (if not gap && not (i == 12) || ltb 16 (i + 4)
        then false
        else ipv4_fields 0 0 0 s && ipv6_end (i + 4) gap)
    else if c == b':'
    then ipv6_colon again (i + 2) gap rest
    else false

-- The loop of `parseIPv6`: `i` bytes are filled, and `gap` tells that an ellipsis was read. Each
-- round fills two bytes, so nine rounds are enough.
ipv6_groups : ℕ → ℕ → Bool → Bytes → Bool
ipv6_groups zero i gap s = false
ipv6_groups (suc fuel) i gap s =
    let (n, rest) = hex_span s in
    let round = ipv6_group (ipv6_groups fuel) i gap s rest in
    if leb 16 i || n == 0 || ltb 4 n then false else round

ipv6_text : Bytes → Bool
ipv6_text (c ∷ d ∷ s) =
    if c == b':' && d == b':'
    then elim s [ [] ↦ true | x ∷ xs ↦ ipv6_groups 9 0 true (x ∷ xs) ]
    else ipv6_groups 9 0 false (c ∷ d ∷ s)
ipv6_text s = ipv6_groups 9 0 false s

-- The text before the first `%`, and the zone behind it.
split_zone : Bytes → Bytes × Option Bytes
split_zone [] = ([], none)
split_zone (c ∷ s) =
    let (front, zone) = split_zone s in if c == b'%' then ([], some s) else (c ∷ front, zone)

parse_ipv6 : Bytes × Option Bytes → Option IpAddress
parse_ipv6 (front, none) = if ipv6_text front then some (v6 []) else none
parse_ipv6 (front, some []) = none
parse_ipv6 (front, some (c ∷ zone)) = if ipv6_text front then some (v6 (c ∷ zone)) else none

parse_from : Bytes → Bytes → Option IpAddress
parse_from whole [] = none
parse_from whole (c ∷ s) =
    let rest = parse_from whole s in
    if c == b'.'
    then (if ipv4_fields 0 0 0 whole then some v4 else none)
    else if c == b':'
    then parse_ipv6 (split_zone whole)
    else if c == b'%'
    then none
    else rest

-- `netip.ParseAddr`.
unfoldable pub parse_addr : Bytes → Option IpAddress
unfolding parse_from parse_ipv6 split_zone ipv6_text ipv6_groups ipv6_group ipv6_colon ipv6_end
    hex_span is_hex_digit ipv4_fields
parse_addr s = parse_from s s

addresses :
    (parse_addr (codes "10.0.0.1") ≡ some v4)
    × (parse_addr (codes "10.0.0.01") ≡ none)
    × (parse_addr (codes "::") ≡ some (v6 []))
    × (parse_addr (codes "::ffff:1.2.3.4") ≡ some (v6 []))
    × (parse_addr (codes "1:2:3:4:5:6:7::") ≡ some (v6 []))
    × (parse_addr (codes "1:2:3:4:5:6:7:8:9") ≡ none)
    × (parse_addr (codes "fe80::1%eth0") ≡ some (v6 (codes "eth0")))
    × (parse_addr (codes "1.2.3") ≡ none)
unfolding parse_addr is_digit
addresses = (refl, refl, refl, refl, refl, refl, refl, refl)
