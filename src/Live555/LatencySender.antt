-- ===== src/Live555/LatencySender.antt =====
-- `deliverFrame` and `afterGettingFrame` of live555/latency_sender.cc: the sender notes the time of
-- each NAL unit under its size, and the sink takes the time when a frame of that size comes back.
-- `find_next_nal` is that of live555/source.cc. The clock and what live555 does are arguments.
pub mod Safe
use rtp_benchmarks.Common.{
  ℕ, ◌+◌, ◌*◌, ◌/◌, ◌-◌, ◌≡◌, Bool, true, false, ◌||◌, List, [], ◌∷◌, Option, none, some, Result,
  ok, ◌>>=◌, ltb, ◌==◌, if◌then◌else◌, length, u8, u32, u64, add64, bit_and,
}
use rtp_benchmarks.V3c.Types.{load, load_bytes}
use rtp_benchmarks.Uvgrtp.Sender.{Event, pace}
use rtp_benchmarks.Live555.Source.{find_next_nal, frame_sizes}

-- `finfo`.
pub record Finfo : Type 0 where
  pub first : ℕ
  pub second : ℕ

-- `timestamps`, which has an entry at most for each key.
unfoldable pub lookup : ℕ → List (ℕ × Finfo) → Option Finfo
lookup key [] = none
lookup key ((k, info) ∷ rest) = if k == key then some info else lookup key rest

unfoldable pub erase : ℕ → List (ℕ × Finfo) → List (ℕ × Finfo)
erase key [] = []
erase key ((k, info) ∷ rest) = if k == key then rest else ((k, info) ∷ erase key rest)

pub record LatencyState : Type 0 where
  pub next_nal_start : Option ℕ
  pub current : ℕ
  pub timestamps : List (ℕ × Finfo)
  pub frames : ℕ
  pub nintras : ℕ
  pub ninters : ℕ
  pub intra_total : ℕ
  pub inter_total : ℕ
  pub frame_total : ℕ

abbrev pub initial_state : LatencyState
initial_state = record {
  next_nal_start = none;
  current = 0;
  timestamps = [];
  frames = 0;
  nintras = 0;
  ninters = 0;
  intra_total = 0;
  inter_total = 0;
  frame_total = 0;
}

-- Why the program ends.
pub data Reason : Type 0 where
  size_taken : Reason
  not_found : Reason
  size_mismatch : Reason
  all_received : Reason

-- How a callback ends: it returns, after a delivery of a frame size, a number of truncated bytes and
-- the bytes, or without one, or it ends the program.
pub data Outcome : Type 0 where
  returned : Option (List Event × ℕ × ℕ × List ℕ) → LatencyState → Outcome
  exited : Reason → LatencyState → Outcome

module _ (base : ℕ) (mem : List ℕ) (period : ℕ) where
  -- The part behind the check of the map, at the time `now`.
  unfoldable pub note_nal :
      Option Finfo → ℕ → ℕ → List Event → ℕ → ℕ → LatencyState → Result Outcome
  note_nal (some info) size start waits now max_size s = ok (exited size_taken s)
  note_nal none size start waits now max_size s =
      let (frame_size, truncated) = frame_sizes (u32 size) max_size in
      load_bytes mem start frame_size >>= (λ payload. ok (
        returned (some (waits, frame_size, truncated, payload))
          (record s { timestamps = (size, record { first = now; second = size }) ∷ s.timestamps })))

  unfoldable pub deliver_found : Option (ℕ × ℕ) → ℕ → ℕ → ℕ → LatencyState → Result Outcome
  deliver_found none runtime now max_size s = ok (returned none s)
  deliver_found (some (size, start)) runtime now max_size s =
      let waits = pace period s.current runtime in
      let current' = if ltb 1500 size then u64 (s.current + 1) else s.current in
      if size == 0
      then ok (returned none s)
      else note_nal (lookup size s.timestamps) size start waits now max_size
          (record s { current = current' })

  unfoldable pub latency_deliver_frame : Bool → ℕ → ℕ → ℕ → LatencyState → Result Outcome
  latency_deliver_frame awaiting runtime now max_size s =
      if awaiting
      then (find_next_nal base mem s.next_nal_start >>= (λ (nal, next_nal_start').
          deliver_found nal runtime now max_size
            (record s { next_nal_start = some next_nal_start' })))
      else ok (returned none s)

-- The counters, for the first byte of the receive buffer.
unfoldable pub count_received : ℕ → ℕ → LatencyState → LatencyState
count_received b diff s =
    let nal_type = u8 (bit_and (b / 2) 0x3f) in
    if nal_type == 19
    then record s {
      nintras = add64 s.nintras 1;
      intra_total = add64 s.intra_total (diff / 1000);
      frame_total = add64 s.frame_total (diff / 1000);
    }
    else if nal_type == 1
    then record s {
      ninters = add64 s.ninters 1;
      inter_total = add64 s.inter_total (diff / 1000);
      frame_total = add64 s.frame_total (diff / 1000);
    }
    else s

unfoldable pub end_frame : LatencyState → Outcome
end_frame s =
    let next : LatencyState = record s { frames = add64 s.frames 1 } in
    if next.frames == 601 then exited all_received next else returned none next

-- The part behind the look-up; `now` is the time that is then read.
unfoldable pub take_frame : Option Finfo → ℕ → ℕ → ℕ → LatencyState → Outcome
take_frame none frame_size b now s = exited not_found s
take_frame (some info) frame_size b now s =
    if info.second == frame_size
    then end_frame (
        count_received b (now - info.first)
          (record s { timestamps = erase frame_size s.timestamps }))
    else exited size_mismatch s

-- `frameSize` is an `unsigned`, `b` the first byte of the receive buffer, and the clock does not run
-- backwards.
unfoldable pub after_getting_frame : ℕ → ℕ → ℕ → LatencyState → Outcome
after_getting_frame frame_size b now s =
    take_frame (lookup frame_size s.timestamps) frame_size b now s
