-- ===== src/Live555/Source/Bounds.antt =====
-- Where `find_next_nal` and `deliverFrame` of live555/source.cc read.
use rtp_benchmarks.Common.{
  ℕ, ◌+◌, ◌-◌, ◌≤◌, ◌<◌, ◌≡◌, refl, min, List, Option, none, some, Result, ok, arith, length, ltb,
  Bool-cases, inl, inr, take, drop,
}
use rtp_benchmarks.Live555.Source.{
  SourceState, Delivery, ignored, exit_success, delivered, frame_sizes,
}

-- Where the next search starts, once the file is open.
abbrev pub start_of : Option ℕ → ℕ
start_of none = 0
start_of (some p) = p

-- A NAL unit between two places of the file.
abbrev pub IsBetween : ℕ → ℕ → Option (ℕ × ℕ) → Type 0
IsBetween lo hi none = lo ≤ hi
IsBetween lo hi (some (size, start)) = (lo ≤ start) × (start + size ≡ hi)

-- A delivery of the bytes of a NAL unit that ends at the next place: all of them, or `max_size` of
-- them, and how many are cut off.
abbrev pub IsDelivered : List ℕ → ℕ → ℕ → ℕ → Delivery → Type 0
IsDelivered mem from next max_size ignored = next ≡ from
IsDelivered mem from next max_size (exit_success bytes) = from ≤ next
IsDelivered mem from next max_size (delivered waits frame_size truncated payload) =
    (start : ℕ) × (from ≤ start)
    × (start < next)
    × (frame_size ≡ min max_size (next - start))
    × (truncated ≡ (next - start) - max_size)
    × (payload ≡ take frame_size (drop start mem))

pub frame_sizes-min :
    (size max_size : ℕ) → frame_sizes size max_size ≡ (min max_size size, size - max_size)
unfolding frame_sizes
frame_sizes-min size max_size = elim (Bool-cases (ltb max_size size)) [
  | inl e ↦ let m : min max_size size ≡ max_size = ground arith in rw (e, m) refl
  | inr e ↦
      let m : min max_size size ≡ size = ground arith in
      let z : size - max_size ≡ 0 = ground arith in rw (e, m, z) refl
]

abbrev IsStep : List ℕ → ℕ → ℕ → Result (Delivery × SourceState) → Type 0
IsStep mem from max_size r =
    (d : Delivery) × (t : SourceState) × (r ≡ ok (d, t))
    × IsDelivered mem from (start_of t.next_nal_start) max_size d
    × (start_of t.next_nal_start ≤ length mem)
