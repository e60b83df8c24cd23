-- ===== src/V3c/Bytes/RoundTrip.antt =====
-- The size fields of the V3C sample stream: what `convert_size_big_endian` writes, and that
-- `combineBytes` reads it back.
use rtp_benchmarks.Common.{
  ℕ, zero, suc, ◌+◌, ◌*◌, ◌/◌, ◌%◌, ◌^◌, ◌≤◌, ◌<◌, ◌≡◌, refl, List, [], ◌∷◌, ◌++◌, arith, ok,
  length, length-append, IsByte, All,
}
use rtp_benchmarks.Common.Bits.{bit_or_disjoint}
use rtp_benchmarks.V3c.Bytes.{
  combine_bytes_4, combine_bytes_3, combine_bytes_2, convert_size_big_endian,
}

-- The number that a list of digits to the base 256 stands for, most significant first.
unfoldable pub value : ℕ → List ℕ → ℕ
value acc [] = acc
value acc (b ∷ bs) = value (acc * 256 + b) bs

-- The `n` lowest digits of a number to the base 256, most significant first.
unfoldable pub big_endian : ℕ → ℕ → List ℕ
big_endian zero x = []
big_endian (suc n) x = big_endian n (x / 256) ++ (x % 256 ∷ [])

-- `convert_size_big_endian` into an array of its output size, up to four bytes, writes the lowest
-- bytes of its input, most significant first, and makes no access past the array.
pub convert-big_endian :
    (n x : ℕ) (out : List ℕ)
    → n ≤ 4
    → length out ≡ n
    → convert_size_big_endian x out n ≡ ok (big_endian n x)
unfolding convert_size_big_endian big_endian
convert-big_endian n x [] h e = ground arith
convert-big_endian n x (a ∷ []) h e = ground arith
convert-big_endian n x (a ∷ b ∷ []) h e = ground arith
convert-big_endian n x (a ∷ b ∷ c ∷ []) h e = ground arith
convert-big_endian n x (a ∷ b ∷ c ∷ d ∷ []) h e = ground arith
convert-big_endian n x (a ∷ b ∷ c ∷ d ∷ f ∷ out) h e = absurd (omega arith)

pub combine_2_value : (a b : ℕ) → IsByte a → IsByte b → combine_bytes_2 a b ≡ a * 256 + b
unfolding combine_bytes_2
combine_2_value a b ha hb = ground (arith, bit_or_disjoint 8 a b)

pub combine_3_value :
    (a b c : ℕ) → IsByte a → IsByte b → IsByte c → combine_bytes_3 a b c ≡ (a * 256 + b) * 256 + c
unfolding combine_bytes_3
combine_3_value a b c ha hb hc =
    ground (arith, bit_or_disjoint 16 a (b * 2 ^ 8), bit_or_disjoint 8 (a * 256 + b) c)

pub combine_4_value :
    (a b c d : ℕ)
    → IsByte a
    → IsByte b
    → IsByte c
    → IsByte d
    → combine_bytes_4 a b c d ≡ ((a * 256 + b) * 256 + c) * 256 + d
unfolding combine_bytes_4
combine_4_value a b c d ha hb hc hd = ground (
  arith,
  bit_or_disjoint 24 a (b * 2 ^ 16),
  bit_or_disjoint 16 (a * 256 + b) (c * 2 ^ 8),
  bit_or_disjoint 8 ((a * 256 + b) * 256 + c) d,
)

-- `combineBytes` on a list of two, three or four bytes.
unfoldable pub combine : List ℕ → ℕ
combine (a ∷ b ∷ []) = combine_bytes_2 a b
combine (a ∷ b ∷ c ∷ []) = combine_bytes_3 a b c
combine (a ∷ b ∷ c ∷ d ∷ []) = combine_bytes_4 a b c d
combine _ = 0

-- `combineBytes` of two, three or four bytes is the number that they spell to the base 256,
-- most significant first.
pub combine-value :
    (bs : List ℕ) → All IsByte bs → 2 ≤ length bs → length bs ≤ 4 → combine bs ≡ value 0 bs
unfolding combine value
combine-value [] h lo hi = absurd (omega arith)
combine-value (a ∷ []) h lo hi = absurd (omega arith)
combine-value (a ∷ b ∷ []) h lo hi = ground (arith, combine_2_value a b)
combine-value (a ∷ b ∷ c ∷ []) h lo hi = ground (arith, combine_3_value a b c)
combine-value (a ∷ b ∷ c ∷ d ∷ []) h lo hi = ground (arith, combine_4_value a b c d)
combine-value (a ∷ b ∷ c ∷ d ∷ e ∷ bs) h lo hi = absurd (omega arith)

-- `combineBytes` reads back the size that `convert_size_big_endian` writes in two, three or four
-- bytes, as long as the size fits in them.
pub combine-big_endian : (n x : ℕ) → 2 ≤ n → n ≤ 4 → x < 256 ^ n → combine (big_endian n x) ≡ x
unfolding combine big_endian
combine-big_endian zero x lo hi h = absurd (omega arith)
combine-big_endian (suc zero) x lo hi h = absurd (omega arith)
combine-big_endian (suc (suc zero)) x lo hi h =
    ground (arith, combine_2_value (x / 256 % 256) (x % 256))
combine-big_endian (suc (suc (suc zero))) x lo hi h =
    ground (arith, combine_3_value (x / 256 / 256 % 256) (x / 256 % 256) (x % 256))
combine-big_endian (suc (suc (suc (suc zero)))) x lo hi h = ground (
  arith,
  combine_4_value (x / 256 / 256 / 256 % 256) (x / 256 / 256 % 256) (x / 256 % 256) (x % 256),
)
combine-big_endian (suc (suc (suc (suc (suc n))))) x lo hi h = absurd (omega arith)

pub length-big_endian : (n x : ℕ) → length (big_endian n x) ≡ n
unfolding big_endian
length-big_endian zero x = refl
length-big_endian (suc n) x = omega (
  arith,
  length-append {0} (big_endian n (x / 256)) (x % 256 ∷ []),
  length-big_endian n (x / 256),
)
