-- ===== src/Live555/Source.antt =====
-- `find_next_nal` and `deliverFrame` of live555/source.cc: the source that gives live555 the NAL units
-- of a file, one for each call. The file is in memory at the address `base`; the clock, the frame
-- period, whether live555 awaits data and the room it has are arguments. The locks and the time of
-- the last delivery are left out.
pub mod Bounds
pub mod Streams
pub mod Cuts
pub mod Queues
pub mod Nals
pub mod Refines
use rtp_benchmarks.Common.{
  ℕ, zero, suc, ◌+◌, ◌-◌, ◌*◌, ◌≡◌, Bool, true, false, not, ◌||◌, List, [], ◌∷◌, Option, none, some,
  Result, ok, err, Fault, ◌>>=◌, ltb, ◌==◌, if◌then◌else◌, length, u32, u64, add64,
}
use rtp_benchmarks.V3c.Types.{load, load_bytes}
use rtp_benchmarks.Uvgrtp.Sender.{Event, pace}
use rtp_benchmarks.Live555.StartCode.{ff_avc_find_startcode}

-- `while (nal_start < end && !*(nal_start++));`: behind the zeros and the byte after them.
unfoldable pub skip_zeros : List ℕ → ℕ → ℕ → Result ℕ
skip_zeros mem zero nal_start = err Fault.out_of_fuel
skip_zeros mem (suc fuel) nal_start =
    let rest = skip_zeros mem fuel (nal_start + 1) in
    if ltb nal_start (length mem)
    then (load mem nal_start >>= (λ b. if b == 0 then rest else ok (nal_start + 1)))
    else ok nal_start

-- The static `nal_start`; it is none before the first call, when `p` is still null.
unfoldable pub open_file : ℕ → List ℕ → Option ℕ → Result ℕ
open_file base mem none = ff_avc_find_startcode base mem 0 (length mem)
open_file base mem (some nal_start) = ok nal_start

-- The size and the offset of a NAL unit, or none for the null pointer, and the next `nal_start`.
unfoldable pub cut_nal : ℕ → List ℕ → ℕ → Result (Option (ℕ × ℕ) × ℕ)
cut_nal base mem nal_start =
    if nal_start == length mem
    then ok (none, nal_start)
    else (ff_avc_find_startcode base mem nal_start (length mem)
        >>= (λ nal_end. ok (some (nal_end - nal_start, nal_start), nal_end)))

unfoldable pub find_next_nal : ℕ → List ℕ → Option ℕ → Result (Option (ℕ × ℕ) × ℕ)
find_next_nal base mem nal_start = do
  start ← open_file base mem nal_start
  behind ← skip_zeros mem (suc (length mem)) start
  cut_nal base mem behind

-- The globals that `deliverFrame` changes.
pub record SourceState : Type 0 where
  pub next_nal_start : Option ℕ
  pub current : ℕ
  pub bytes : ℕ

-- What a call of `deliverFrame` does: nothing, the end of the program with the number of bytes, or
-- the wait, `fFrameSize`, `fNumTruncatedBytes` and the bytes at `fTo`.
pub data Delivery : Type 0 where
  ignored : Delivery
  exit_success : ℕ → Delivery
  delivered : List Event → ℕ → ℕ → List ℕ → Delivery

-- `fFrameSize` and `fNumTruncatedBytes`, which is left as it is, at 0, when nothing is cut off.
unfoldable pub frame_sizes : ℕ → ℕ → ℕ × ℕ
frame_sizes new_frame_size max_size =
    if ltb max_size new_frame_size
    then (max_size, new_frame_size - max_size)
    else (new_frame_size, 0)

module _ (base : ℕ) (mem : List ℕ) (period : ℕ) where
  -- The part behind the search, at the time `runtime`.
  unfoldable pub deliver_nal :
      Option (ℕ × ℕ) → ℕ → ℕ → SourceState → Result (Delivery × SourceState)
  deliver_nal none runtime max_size s = ok (exit_success s.bytes, s)
  deliver_nal (some (size, start)) runtime max_size s =
      let (frame_size, truncated) = frame_sizes (u32 size) max_size in
      let current' = if ltb 1500 size then u64 (s.current + 1) else s.current in
      if size == 0
      then ok (exit_success s.bytes, s)
      else (load_bytes mem start frame_size >>= (λ payload. ok (
        delivered (pace period s.current runtime) frame_size truncated payload,
        record s { current = current'; bytes = add64 s.bytes (u32 size) },
      )))

  unfoldable pub deliver_frame : Bool → ℕ → ℕ → SourceState → Result (Delivery × SourceState)
  deliver_frame awaiting runtime max_size s =
      if awaiting
      then (find_next_nal base mem s.next_nal_start >>= (λ (nal, nal_start').
          deliver_nal nal runtime max_size (record s { next_nal_start = some nal_start' })))
      else ok (ignored, s)
