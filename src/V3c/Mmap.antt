-- ===== src/V3c/Mmap.antt =====
-- `mmap_v3c_file` of uvgrtp/v3c_util.cc: the parser of a V3C sample stream. The file is the list of
-- its bytes; `len` is the length that the caller passes. An offset is a `uint64_t`.
pub mod Reads
pub mod Terminates
pub mod Files
pub mod Parses
pub mod Stream
use rtp_benchmarks.Common.{
  ℕ, zero, suc, ◌+◌, Bool, true, false, ◌||◌, List, [], ◌∷◌, ◌++◌, none, Result, ok, err, Fault,
  ◌>>=◌, ◌==◌, leb, if◌then◌else◌, u8, add64, ◌>>>◌,
}
use rtp_benchmarks.V3c.Types.{
  V3cUnitHeader, blank_header, NalInfo, V3cUnitInfo, V3cFileMap, load, load_bytes, is_atlas,
  v3c_vps, v3c_ad, v3c_ovd, v3c_gvd, v3c_avd, v3c_pvd, v3c_cad, v3c_hdr_len,
}
use rtp_benchmarks.V3c.Bytes.{combine_bytes_4, combine_bytes_3, combine_bytes_2}
use rtp_benchmarks.V3c.Header.{parse_v3c_header}

-- What a loop of the function comes to: its value, or the `return EXIT_FAILURE` inside it.
pub data Scan {ℓ} (A : Type ℓ) : Type ℓ where
  done : A → Scan A
  invalid : Scan A

-- The rest of the function after a loop or a read: what it does on the error, and on the value.
abbrev pub on_done {ℓ κ} : {A : Type ℓ} {B : Type κ} → B → (A → B) → Scan A → B
on_done b f (done a) = f a
on_done b f invalid = b

-- `combined_nal_size`, for a precision of two to four bytes.
pub read_nal_size : List ℕ → ℕ → ℕ → Result (Scan ℕ)
read_nal_size cbuf precision p =
    if precision == 2
    then (do a ← load cbuf p; b ← load cbuf (add64 p 1); ok (done (combine_bytes_2 a b)))
    else if precision == 3
    then (do
      a ← load cbuf p
      b ← load cbuf (add64 p 1)
      c ← load cbuf (add64 p 2)
      ok (done (combine_bytes_3 a b c)))
    else if precision == 4
    then (do
      a ← load cbuf p
      b ← load cbuf (add64 p 1)
      c ← load cbuf (add64 p 2)
      d ← load cbuf (add64 p 3)
      ok (done (combine_bytes_4 a b c d)))
    else ok invalid

abbrev pub nal_at : ℕ → ℕ → NalInfo
nal_at location size = record { location = location; size = size; buf = none }

-- The inner loop, over the NAL units of one V3C unit, which ends at `stop`.
pub nal_loop : ℕ → List ℕ → ℕ → ℕ → ℕ → List NalInfo → Result (Scan (List NalInfo))
nal_loop zero cbuf precision stop v3c_ptr infos = err Fault.out_of_fuel
nal_loop (suc fuel) cbuf precision stop v3c_ptr infos =
    let next = (do
      size ← read_nal_size cbuf precision v3c_ptr
      on_done (ok invalid)
          (λ combined_nal_size.
            let location = add64 v3c_ptr precision in
            nal_loop fuel cbuf precision stop (add64 location combined_nal_size)
              (infos ++ (nal_at location combined_nal_size ∷ [])))
          size) in
    if leb stop v3c_ptr then ok (done infos) else next

-- The `switch` that files a unit by its type; a type above 6 is dropped.
unfoldable pub file_unit : ℕ → V3cUnitInfo → V3cFileMap → V3cFileMap
file_unit t unit m =
    if t == v3c_ad
    then record m { ad_units = m.ad_units ++ (unit ∷ []) }
    else if t == v3c_cad
    then record m { cad_units = m.cad_units ++ (unit ∷ []) }
    else if t == v3c_ovd
    then record m { ovd_units = m.ovd_units ++ (unit ∷ []) }
    else if t == v3c_gvd
    then record m { gvd_units = m.gvd_units ++ (unit ∷ []) }
    else if t == v3c_avd
    then record m { avd_units = m.avd_units ++ (unit ∷ []) }
    else if t == v3c_pvd
    then record m { pvd_units = m.pvd_units ++ (unit ∷ []) }
    else m

-- The array `v3c_size` has `v3c_size_precision` bytes; other widths than two and three are refused.
pub combine_v3c_size : List ℕ → Scan ℕ
combine_v3c_size (a ∷ b ∷ []) = done (combine_bytes_2 a b)
combine_v3c_size (a ∷ b ∷ c ∷ []) = done (combine_bytes_3 a b c)
combine_v3c_size _ = invalid

-- `combined_v3c_size`; `memcpy` has read all the bytes of the field before its width is tested.
pub read_v3c_size : List ℕ → ℕ → ℕ → Result (Scan ℕ)
unfolding combine_v3c_size
read_v3c_size cbuf precision p = do bytes ← load_bytes cbuf p precision; ok (combine_v3c_size bytes)

-- Where the NAL units of a unit start, with the width of their size fields.
pub nal_start : List ℕ → ℕ → ℕ → Result (ℕ × ℕ)
unfolding is_atlas
nal_start cbuf t ptr =
    let v3c_ptr = add64 ptr v3c_hdr_len in
    if is_atlas t
    then (do b ← load cbuf v3c_ptr; ok (add64 v3c_ptr 1, u8 ((b >>> 5) + 1)))
    else ok (v3c_ptr, 4)

abbrev pub mapped_unit : V3cUnitHeader → List NalInfo → V3cUnitInfo
mapped_unit hdr infos = record { header = hdr; nal_infos = infos; ptr = 0; ready = false }

-- What follows the header of a unit. A parameter set is one NAL unit, header included.
pub parse_payload : List ℕ → ℕ → ℕ → V3cFileMap → V3cUnitHeader → Result (Scan V3cFileMap)
unfolding file_unit nal_start
parse_payload cbuf ptr size m hdr =
    let t = hdr.vuh_unit_type in
    let nal_units = (do
      (start, precision) ← nal_start cbuf t ptr
      nals ← nal_loop (suc size) cbuf precision (add64 ptr size) start []
      ok (on_done invalid (λ infos. done (file_unit t (mapped_unit hdr infos) m)) nals)) in
    if t == v3c_vps
    then ok (
        done
          (record m { vps_units = m.vps_units ++ (mapped_unit hdr (nal_at ptr size ∷ []) ∷ []) }))
    else nal_units

-- One unit, from behind its size field: the map with the unit filed.
pub parse_unit : List ℕ → ℕ → ℕ → V3cFileMap → Result (Scan V3cFileMap)
unfolding parse_payload
parse_unit cbuf ptr size m = do
  hdr ← parse_v3c_header (blank_header 0) cbuf ptr
  parse_payload cbuf ptr size m hdr

-- The outer loop. `EXIT_FAILURE` is 1, which as a `bool` is `true`.
pub unit_loop : ℕ → List ℕ → ℕ → ℕ → ℕ → V3cFileMap → Result (Bool × V3cFileMap)
unit_loop zero cbuf len precision ptr m = err Fault.out_of_fuel
unit_loop (suc fuel) cbuf len precision ptr m =
    let unit_ptr = add64 ptr precision in
    let next = (do
      size ← read_v3c_size cbuf precision ptr
      on_done (ok (true, m))
          (λ combined_v3c_size. do
            parsed ← parse_unit cbuf unit_ptr combined_v3c_size m
            on_done (ok (true, m))
                (λ m'. unit_loop fuel cbuf len precision (add64 unit_ptr combined_v3c_size) m')
                parsed)
          size) in
    if leb len ptr then ok (true, m) else next

pub mmap_v3c_file : List ℕ → ℕ → V3cFileMap → Result (Bool × V3cFileMap)
mmap_v3c_file cbuf len m = do
  first_byte ← load cbuf 0
  unit_loop (suc len) cbuf len (u8 ((first_byte >>> 5) + 1)) 1 m
