-- ===== src/V3c/Bytes.antt =====
-- `combineBytes` and `convert_size_big_endian` of uvgrtp/v3c_util.cc.
pub mod RoundTrip
use rtp_benchmarks.Common.{
  ℕ, zero, suc, ◌+◌, ◌-◌, ◌*◌, bit_or, ◌&&◌, List, Result, ok, err, Fault, length, set, ltb,
  if◌then◌else◌, u8, u32, ◌<<<◌, ◌>>>◌,
}

-- The three overloads, by the number of bytes.
pub combine_bytes_4 : ℕ → ℕ → ℕ → ℕ → ℕ
combine_bytes_4 byte1 byte2 byte3 byte4 =
    bit_or (bit_or (bit_or (u32 (byte1 <<< 24)) (u32 (byte2 <<< 16))) (u32 (byte3 <<< 8))) byte4

pub combine_bytes_3 : ℕ → ℕ → ℕ → ℕ
combine_bytes_3 byte1 byte2 byte3 = bit_or (bit_or (u32 (byte1 <<< 16)) (u32 (byte2 <<< 8))) byte3

pub combine_bytes_2 : ℕ → ℕ → ℕ
combine_bytes_2 byte1 byte2 = bit_or (u32 (byte1 <<< 8)) byte2

-- The first number counts the rounds that are left, the second is `i`. A shift of a `uint32_t` by
-- 32 or more is undefined.
pub convert_from : ℕ → ℕ → ℕ → List ℕ → ℕ → Result (List ℕ)
convert_from zero i input out output_size = ok out
convert_from (suc rounds) i input out output_size =
    let index = output_size - i - 1 in
    let rest =
      convert_from rounds (i + 1) input (set out index (u8 (input >>> (8 * i)))) output_size in
    if ltb i 4 && ltb index (length out) then rest else err Fault.bad_access

pub convert_size_big_endian : ℕ → List ℕ → ℕ → Result (List ℕ)
unfolding convert_from
convert_size_big_endian input out output_size = convert_from output_size 0 input out output_size
