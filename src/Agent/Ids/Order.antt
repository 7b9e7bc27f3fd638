-- ===== src/Agent/Ids/Order.antt =====
-- The IDs of `newID` of internal/agent/agent.go sort by the millisecond of their making.
use aegis_ebpf.Base.{ℕ, ◌/◌, ◌%◌, ◌^◌, ◌≤◌, ◌<◌, ◌≡◌, true, ◌∷◌, Bytes, arith}
use aegis_ebpf.Agent.Ids.{stamp, lower_digit, hex, id_text, id_at}
use aegis_ebpf.Agent.Listing.{bytes_before}

before_same : (c : ℕ) (s t : Bytes) → bytes_before s t ≡ true → bytes_before (c ∷ s) (c ∷ t) ≡ true
unfolding bytes_before
before_same c s t h = ground (arith, h)

digit_before :
    (a b : ℕ) (s t : Bytes)
    → a ≤ b
    → b < 16
    → (a ≡ b → bytes_before s t ≡ true)
    → bytes_before (lower_digit a ∷ s) (lower_digit b ∷ t) ≡ true
unfolding bytes_before
digit_before a b s t le lt h = ground (arith, le, lt, h)

-- Two bytes in hexadecimal compare as the bytes do.
byte_before :
    (a b : ℕ) (s t : Bytes)
    → a ≤ b
    → b < 256
    → (a ≡ b → bytes_before s t ≡ true)
    → bytes_before
        (lower_digit (a / 16) ∷ lower_digit (a % 16) ∷ s)
        (lower_digit (b / 16) ∷ lower_digit (b % 16) ∷ t)
      ≡ true
byte_before a b s t le lt h =
    digit_before (a / 16) (b / 16) _ _ (omega (arith, le)) (omega (arith, lt)) (λ e.
      digit_before (a % 16) (b % 16) _ _ (omega (arith, le, e)) (omega arith)
        (λ f. h (omega (arith, e, f))))

pub id_at-before :
    (m n : ℕ) (r s : Bytes) → m < n → n < 2 ^ 48 → bytes_before (id_at m r) (id_at n s) ≡ true
unfolding id_at id_text stamp hex
id_at-before m n r s lt le = byte_before _ _ _ _ (omega (arith, lt, le)) (omega arith) (λ e0.
    byte_before _ _ _ _ (omega (arith, lt, le, e0)) (omega arith) (λ e1.
      byte_before _ _ _ _ (omega (arith, lt, le, e0, e1)) (omega arith) (λ e2.
        byte_before _ _ _ _ (omega (arith, lt, le, e0, e1, e2)) (omega arith) (λ e3.
          before_same b'-' _ _ (
            byte_before _ _ _ _ (omega (arith, lt, le, e0, e1, e2, e3)) (omega arith) (λ e4.
              byte_before _ _ _ _ (omega (arith, lt, le, e0, e1, e2, e3, e4)) (omega arith)
                (λ e5. absurd (omega (arith, lt, le, e0, e1, e2, e3, e4, e5)))))))))
