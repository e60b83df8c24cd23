-- ===== src/V3c/Mmap/Terminates.antt =====
-- `mmap_v3c_file` ends, and what it answers.
use rtp_benchmarks.Common.{
  ℕ, zero, suc, ◌+◌, ◌^◌, ◌≤◌, ◌<◌, ◌≡◌, ◌≢◌, ap, ◌∙◌, List, [], ◌∷◌, ◌++◌, ok, err, Fault, arith,
  IsByte, All, length, add64, Bool-cases, inl, inr, ◌==◌, leb, leb_false→lt, >>=-ne-err,
}
use rtp_benchmarks.V3c.Types.{NalInfo, V3cFileMap, v3c_vps, load, blank_header, V3cUnitHeader}
use rtp_benchmarks.V3c.Header.{parse_v3c_header}
use rtp_benchmarks.V3c.Mmap.{
  read_nal_size, read_v3c_size, nal_loop, nal_start, parse_payload, parse_unit, unit_loop,
  mmap_v3c_file, nal_at,
}
use rtp_benchmarks.V3c.Mmap.Reads.{on_done-cases, read_nal_size_bounds, read_v3c_size_bounds}

-- A read never answers `out_of_fuel`.
read_nal_size-fuel : (cbuf : List ℕ) (n p : ℕ) → read_nal_size cbuf n p ≢ err Fault.out_of_fuel
unfolding read_nal_size
read_nal_size-fuel cbuf n p e = ground arith

read_v3c_size-fuel : (cbuf : List ℕ) (n p : ℕ) → read_v3c_size cbuf n p ≢ err Fault.out_of_fuel
unfolding read_v3c_size
read_v3c_size-fuel cbuf n p e = ground arith

parse_v3c_header-fuel :
    (cbuf : List ℕ) (p : ℕ) → parse_v3c_header (blank_header 0) cbuf p ≢ err Fault.out_of_fuel
unfolding parse_v3c_header
parse_v3c_header-fuel cbuf p e = ground arith

nal_loop-fuel :
    (fuel : ℕ) (cbuf : List ℕ) (n stop p : ℕ) (infos : List NalInfo)
    → All IsByte cbuf
    → length cbuf ≤ 2 ^ 63
    → 0 < fuel
    → stop < p + fuel
    → nal_loop fuel cbuf n stop p infos ≢ err Fault.out_of_fuel
unfolding nal_loop
nal_loop-fuel zero cbuf n stop p infos hb hl h0 hf = absurd (omega arith)
nal_loop-fuel (suc fuel) cbuf n stop p infos hb hl h0 hf = elim (Bool-cases (leb stop p)) [
  | inl e ↦ rw e (λ q. cc)
  | inr e ↦ rw e (
      >>=-ne-err (read_nal_size cbuf n p) _ _ (read_nal_size-fuel cbuf n p) (λ s q.
        on_done-cases (λ r. r ≢ err Fault.out_of_fuel) s _ _ (λ k. cc)
          (λ x d.
            let (a, b, c, l) = read_nal_size_bounds cbuf n p {x = x} hb (q ∙ ap ok d) in
            let before : p < stop = leb_false→lt stop p e in
            nal_loop-fuel fuel cbuf n stop (add64 (add64 p n) x)
              (infos ++ (nal_at (add64 p n) x ∷ [])) hb hl (omega arith) (omega arith))))
]

nal_start-fuel : (cbuf : List ℕ) (t ptr : ℕ) → nal_start cbuf t ptr ≢ err Fault.out_of_fuel
unfolding nal_start
nal_start-fuel cbuf t ptr e = ground arith

-- The NAL units of a unit start at most five bytes behind its size field.
nal_start_bounds :
    (cbuf : List ℕ) (t ptr start n : ℕ)
    → ptr ≤ 2 ^ 63
    → nal_start cbuf t ptr ≡ ok (start, n)
    → ptr ≤ start
unfolding nal_start
nal_start_bounds cbuf t ptr start n h e = ground arith

parse_payload-fuel :
    (cbuf : List ℕ) (ptr size : ℕ) (m : V3cFileMap) (hdr : V3cUnitHeader)
    → All IsByte cbuf
    → length cbuf ≤ 2 ^ 63
    → ptr ≤ 2 ^ 63
    → size < 2 ^ 24
    → parse_payload cbuf ptr size m hdr ≢ err Fault.out_of_fuel
unfolding parse_payload
parse_payload-fuel cbuf ptr size m hdr hb hl hp hs =
    elim (Bool-cases (hdr.vuh_unit_type == v3c_vps)) [
      | inl e ↦ rw e (λ q. cc)
      | inr e ↦ rw e (
          >>=-ne-err (nal_start cbuf hdr.vuh_unit_type ptr) _ _
            (nal_start-fuel cbuf hdr.vuh_unit_type ptr)
            (λ (start, n) q.
              >>=-ne-err (nal_loop (suc size) cbuf n (add64 ptr size) start []) _ _
                (nal_loop-fuel (suc size) cbuf n (add64 ptr size) start [] hb hl (omega arith)
                  (omega (arith, nal_start_bounds cbuf hdr.vuh_unit_type ptr start n hp q)))
                (λ a r k. cc)))
    ]

parse_unit-fuel :
    (cbuf : List ℕ) (ptr size : ℕ) (m : V3cFileMap)
    → All IsByte cbuf
    → length cbuf ≤ 2 ^ 63
    → ptr ≤ 2 ^ 63
    → size < 2 ^ 24
    → parse_unit cbuf ptr size m ≢ err Fault.out_of_fuel
unfolding parse_unit
parse_unit-fuel cbuf ptr size m hb hl hp hs =
    >>=-ne-err (parse_v3c_header (blank_header 0) cbuf ptr) _ _ (parse_v3c_header-fuel cbuf ptr)
      (λ hdr q. parse_payload-fuel cbuf ptr size m hdr hb hl hp hs)

unit_loop-fuel :
    (fuel : ℕ) (cbuf : List ℕ) (len n p : ℕ) (m : V3cFileMap)
    → All IsByte cbuf
    → length cbuf ≤ 2 ^ 63
    → 0 < fuel
    → len < p + fuel
    → unit_loop fuel cbuf len n p m ≢ err Fault.out_of_fuel
unfolding unit_loop
unit_loop-fuel zero cbuf len n p m hb hl h0 hf = absurd (omega arith)
unit_loop-fuel (suc fuel) cbuf len n p m hb hl h0 hf = elim (Bool-cases (leb len p)) [
  | inl e ↦ rw e (λ q. cc)
  | inr e ↦ rw e (
      >>=-ne-err (read_v3c_size cbuf n p) _ _ (read_v3c_size-fuel cbuf n p) (λ s q.
        on_done-cases (λ r. r ≢ err Fault.out_of_fuel) s _ _ (λ k. cc)
          (λ x d.
            let (a, b, c) = read_v3c_size_bounds cbuf n p {x = x} hb (q ∙ ap ok d) in
            let before : p < len = leb_false→lt len p e in
            >>=-ne-err (parse_unit cbuf (add64 p n) x m) _ _
              (parse_unit-fuel cbuf (add64 p n) x m hb hl (omega arith) c)
              (λ u r.
                on_done-cases (λ r. r ≢ err Fault.out_of_fuel) u _ _ (λ k. cc)
                  (λ m' f.
                    unit_loop-fuel fuel cbuf len n (add64 (add64 p n) x) m' hb hl (omega arith)
                      (omega arith))))))
]

-- The parser ends on every file below 2 ^ 63 bytes: its loops never take more rounds than the
-- file has bytes.
pub mmap_v3c_file_terminates :
    (cbuf : List ℕ) (len : ℕ) (m : V3cFileMap)
    → All IsByte cbuf
    → length cbuf ≤ 2 ^ 63
    → mmap_v3c_file cbuf len m ≢ err Fault.out_of_fuel
unfolding mmap_v3c_file
mmap_v3c_file_terminates cbuf len m hb hl =
    >>=-ne-err (load cbuf 0) _ _ (λ e. ground arith)
      (λ b q. unit_loop-fuel (suc len) cbuf len _ 1 m hb hl (omega arith) (omega arith))
