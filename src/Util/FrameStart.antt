-- ===== src/Util/FrameStart.antt =====
-- `get_next_frame_start` of util/util.cc: the search for the next start code, two or more zero
-- bytes and a one.
pub mod Finds
use rtp_benchmarks.Common.{
  ℕ, zero, suc, ◌+◌, ◌-◌, ◌^◌, ◌≡◌, Bool, ◌&&◌, List, Result, ok, err, Fault, ◌>>=◌, ltb, leb, ◌==◌,
  if◌then◌else◌, u8, u32,
}
use rtp_benchmarks.V3c.Types.{load}

-- -1, as the 32 bits of an `int`.
abbrev pub not_found : ℕ
not_found = 2 ^ 32 - 1

-- The counter is a `uint8_t`.
abbrev pub count : ℕ → ℕ → ℕ
count b zero_count = if b == 0 then u8 (zero_count + 1) else 0

-- The body of the loop on the byte `b`: the place behind it and the start code's length when `b`
-- ends one, and else what the next rounds give.
unfoldable pub frame_step : ℕ → ℕ → ℕ → Result (ℕ × ℕ) → Result (ℕ × ℕ)
frame_step b zero_count place rest =
    if leb 2 zero_count && (b == 1) then ok (u32 (place + 1), u8 (zero_count + 1)) else rest

-- The loop, on fuel; the pair is the returned `int` and `start_len`, which is left alone when no
-- start code is found.
unfoldable pub frame_loop : ℕ → List ℕ → ℕ → ℕ → ℕ → ℕ → ℕ → Result (ℕ × ℕ)
frame_loop zero buf offset data_len start_len zero_count pos = err Fault.out_of_fuel
frame_loop (suc fuel) buf offset data_len start_len zero_count pos =
    if ltb (u32 (offset + pos)) data_len
    then (load buf (u32 (offset + pos)) >>= (λ b.
        frame_step b zero_count (u32 (offset + pos))
          (frame_loop fuel buf offset data_len start_len (count b zero_count) (u32 (pos + 1)))))
    else ok (not_found, start_len)

unfoldable pub get_next_frame_start : List ℕ → ℕ → ℕ → ℕ → Result (ℕ × ℕ)
get_next_frame_start buf offset data_len start_len =
    frame_loop (suc data_len) buf offset data_len start_len 0 0
