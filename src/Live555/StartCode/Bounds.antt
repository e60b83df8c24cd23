-- ===== src/Live555/StartCode/Bounds.antt =====
-- Where the search for a start code ends.
use rtp_benchmarks.Common.{
  ℕ, zero, suc, ◌+◌, ◌-◌, ◌≤◌, ◌<◌, ◌≡◌, refl, ◌&&◌, List, ok, arith, All, IsByte, length,
  get_elem?_of_lt, ltb, ◌==◌, Bool-cases, inl, inr,
}
use rtp_benchmarks.Live555.StartCode.{scan_end, ff_avc_find_startcode}
use rtp_benchmarks.Live555.StartCode.Places.{is_start, first_scan}
use rtp_benchmarks.Live555.StartCode.Finds.{first_code, ff_avc_find_startcode_internal-first_code}

first_scan-bounds :
    (mem : List ℕ) (n p end : ℕ)
    → p + n ≤ end
    → (p ≤ scan_end end (first_scan mem n p)) × (scan_end end (first_scan mem n p) ≤ end)
unfolding scan_end
first_scan-bounds mem zero p end h = (omega arith, omega arith)
first_scan-bounds mem (suc n) p end h =
    let (lo, hi) = first_scan-bounds mem n (p + 1) end (omega arith) in
    elim (Bool-cases (is_start mem p)) [
      | inl e ↦ rw e (omega arith, omega arith)
      | inr e ↦ rw e (omega arith, hi)
    ]

-- The answer of the search lies between its start and the end of the file.
pub ff_avc_find_startcode-bounds :
    (base : ℕ) (mem : List ℕ) (p : ℕ)
    → All IsByte mem
    → p ≤ length mem
    → (r : ℕ) × (ff_avc_find_startcode base mem p (length mem) ≡ ok r) × (p ≤ r) × (r ≤ length mem)
unfolding ff_avc_find_startcode
ff_avc_find_startcode-bounds base mem p a h =
    let end = length mem in
    let out = first_code mem p end in
    let runs = ff_avc_find_startcode_internal-first_code base mem p a in
    let (lo, hi) = first_scan-bounds mem (end - 3 - p) p end (omega arith) in
    elim (Bool-cases (ltb p out && ltb out end)) [
      | inr e ↦ (out, rw (runs, e) refl, lo, hi)
      | inl e ↦
          let k : (p < out) × (out < end) = ground arith in
          let (b, here) = get_elem?_of_lt mem (out - 1) (omega arith) in
          elim (Bool-cases (b == 0)) [
            | inl f ↦ (out - 1, rw (runs, e, here, f) refl, omega arith, omega arith)
            | inr f ↦ (out, rw (runs, e, here, f) refl, lo, hi)
          ]
    ]
