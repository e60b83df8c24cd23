-- ===== src/Uvgrtp/VpccLatencySender/Totals.antt =====
-- When the totals over the full frames of uvgrtp/vpcc_latency_sender.cc are reported.
use rtp_benchmarks.Common.{
  ℕ, zero, suc, ◌+◌, ◌*◌, ◌≤◌, ◌<◌, min, max, List, Option, none, some, length, get_elem?,
}
use rtp_benchmarks.Uvgrtp.VpccLatencySender.{StreamTimes}

-- The times that are read for `n` frames are there: the first of the four of each frame in the last
-- two streams.
abbrev pub IsFull : ℕ → StreamTimes → Type 0
IsFull n t = (n ≤ length t.ovd) × (n * 4 ≤ length t.gvd + 3) × (n * 4 ≤ length t.avd + 3)

-- The times of the frame number `i`, or 0 where there is none.
abbrev or_zero : Option ℕ → ℕ
or_zero none = 0
or_zero (some t) = t

abbrev time_at : List ℕ → ℕ → ℕ
time_at ts i = or_zero (get_elem? ts i)

-- The earliest and the latest of the four times of the frame number `i`.
abbrev pub sent_at : StreamTimes → ℕ → ℕ
sent_at t i =
    min (min (time_at t.ad i) (time_at t.ovd i))
      (min (time_at t.gvd (i * 4)) (time_at t.avd (i * 4)))

abbrev pub received_at : StreamTimes → ℕ → ℕ
received_at t i =
    max (max (time_at t.ad i) (time_at t.ovd i))
      (max (time_at t.gvd (i * 4)) (time_at t.avd (i * 4)))

-- The four NAL units that open the frame number `i` are there.
abbrev HasFrame : ℕ → StreamTimes → Type 0
HasFrame i t =
    (i < length t.ad) × (i < length t.ovd) × (i * 4 < length t.gvd) × (i * 4 < length t.avd)

module _ {F : Type 0} (float_zero : F) (add_diff : F → ℕ → ℕ → F) (average : F → ℕ → F) where
  -- The sum over `n` frames from the frame number `i`.
  abbrev pub total_from : StreamTimes → StreamTimes → ℕ → ℕ → F → F
  total_from send recv zero i total = total
  total_from send recv (suc n) i total =
      total_from send recv n (i + 1) (add_diff total (received_at recv i) (sent_at send i))
