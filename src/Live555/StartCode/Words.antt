-- ===== src/Live555/StartCode/Words.antt =====
-- The test on a word of four bytes notices a zero in its second and in its last byte.
use rtp_benchmarks.Common.{
  ℕ, ◌+◌, ◌-◌, ◌*◌, ◌/◌, ◌%◌, ◌^◌, ◌<◌, ◌≡◌, ◌≢◌, refl, sym, ap, ◌∙◌, arith, u32,
}
use rtp_benchmarks.Common.Bits.{bit, bit-bit_and, bit-place, bit-zero}
use rtp_benchmarks.Live555.StartCode.{zero_bytes}

bit-odd : (k x : ℕ) (m r : ℕ) → x ≡ m * 2 ^ k + r → r < 2 ^ k → m % 2 ≡ 1 → bit k x ≡ 1
bit-odd k x m r e h o = ap (bit k) e ∙ bit-place k m r h ∙ o

-- A word in which the bit number `k` of all three operands is set.
zero_bytes-bit :
    (k x : ℕ)
    → bit k (u32 (x + (2 ^ 32 - 0x01010101))) ≡ 1
    → bit k (2 ^ 32 - 1 - x) ≡ 1
    → bit k 0x80808080 ≡ 1
    → zero_bytes x ≢ 0
unfolding zero_bytes
zero_bytes-bit k x a b c z =
    let set = bit-bit_and k _ 0x80808080 (bit-bit_and k _ _ a b) c in
    absurd (omega (arith, sym set ∙ ap (bit k) z ∙ bit-zero k))

pub zero_bytes-second :
    (b0 b2 b3 x : ℕ)
    → b0 < 256
    → b2 < 256
    → b3 < 256
    → x ≡ b0 + 256 * 0 + 65536 * b2 + 16777216 * b3
    → zero_bytes x ≢ 0
zero_bytes-second b0 b2 b3 x h0 h2 h3 e =
    let y = u32 (x + (2 ^ 32 - 0x01010101)) in
    let z = 2 ^ 32 - 1 - x in
    zero_bytes-bit 15 x
      (bit-odd 15 y (y / 32768) (y % 32768) (omega arith) (omega arith) (omega arith))
      (bit-odd 15 z (z / 32768) (z % 32768) (omega arith) (omega arith) (omega arith)) refl

pub zero_bytes-last :
    (b0 b1 b2 x : ℕ)
    → b0 < 256
    → b1 < 256
    → b2 < 256
    → x ≡ b0 + 256 * b1 + 65536 * b2 + 16777216 * 0
    → zero_bytes x ≢ 0
zero_bytes-last b0 b1 b2 x h0 h1 h2 e =
    let y = u32 (x + (2 ^ 32 - 0x01010101)) in
    let z = 2 ^ 32 - 1 - x in
    zero_bytes-bit 31 x
      (bit-odd 31 y (y / 2147483648) (y % 2147483648) (omega arith) (omega arith) (omega arith))
      (bit-odd 31 z (z / 2147483648) (z % 2147483648) (omega arith) (omega arith) (omega arith))
      refl
