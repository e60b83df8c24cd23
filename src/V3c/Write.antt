-- ===== src/V3c/Write.antt =====
-- `create_v3c_unit`, `reconstruct_v3c_gop` and `get_gop_size` of uvgrtp/v3c_util.cc: received NAL
-- units are put together to a V3C sample stream. The output is the buffer with the offset `ptr`.
pub mod Cursor
pub mod Units
pub mod Gop
use rtp_benchmarks.Common.{
  ℕ, ◌+◌, ◌-◌, ◌*◌, ◌^◌, Bool, List, [], ◌∷◌, Option, none, Result, ok, Fault, ◌>>=◌, require,
  length, take, replicate, get_last?, map, if◌then◌else◌, u8, u32, u64, add64, ◌<<<◌,
}
use rtp_benchmarks.V3c.Types.{
  NalInfo, V3cUnitInfo, V3cFileMap, at, load_bytes, store, is_atlas, atlas_nal_size_precision,
  video_nal_size_precision, v3c_size_precision,
}
use rtp_benchmarks.V3c.Bytes.{convert_size_big_endian}
use rtp_benchmarks.V3c.Header.{v3c_header}

-- The buffer and `ptr`.
abbrev pub Out : Type 0
Out = List ℕ × ℕ

-- `memcpy(&buf[ptr], bytes, n); ptr += n;` for an array of `n` bytes.
pub put : List ℕ → Out → Result Out
put bytes (buf, ptr) = do buf' ← store buf ptr bytes; ok (buf', add64 ptr (length bytes))

-- A size field: `convert_size_big_endian` into a new array, which is copied to the output.
pub put_size : ℕ → ℕ → Out → Result Out
unfolding put
put_size size precision out = do
  arr ← convert_size_big_endian size (replicate precision 0) precision
  put arr out

-- `memcpy(&buf[ptr], p.buf, size); ptr += size;`
pub put_block : Option (List ℕ) → ℕ → Out → Result Out
unfolding put
put_block block size out = do
  source ← require Fault.bad_access block
  bytes ← load_bytes source 0 size
  put bytes out

-- `v3c_size_int`, a `uint32_t`.
pub v3c_size_int : V3cUnitInfo → ℕ → ℕ
unfolding is_atlas
v3c_size_int unit nal_precision =
    let size = u32 (4 + u32 unit.ptr + u32 (length unit.nal_infos) * nal_precision) in
    if is_atlas unit.header.vuh_unit_type then u32 (size + 1) else size

-- The byte for the width of the NAL size fields, in atlas units only.
pub put_precision : ℕ → ℕ → Out → Result Out
unfolding is_atlas put
put_precision t nal_precision out =
    if is_atlas t then put (u8 (u32 (nal_precision + 2 ^ 32 - 1) <<< 5) ∷ []) out else ok out

-- The loop over the NAL units.
pub put_nals : List NalInfo → ℕ → Out → Result Out
put_nals [] nal_precision out = ok out
put_nals (p ∷ ps) nal_precision out = do
  sized ← put_size (u32 p.size) nal_precision out
  copied ← put_block p.buf p.size sized
  put_nals ps nal_precision copied

-- `delete[] p.buf; p.buf = nullptr;` in each round.
abbrev pub without_block : NalInfo → NalInfo
without_block p = record p { buf = none }

abbrev pub release : V3cUnitInfo → V3cUnitInfo
release unit = record unit { nal_infos = map without_block unit.nal_infos }

pub create_v3c_unit : V3cUnitInfo → ℕ → ℕ → Out → Result (V3cUnitInfo × Out)
create_v3c_unit unit v3c_precision nal_precision out = do
  sized ← put_size (v3c_size_int unit nal_precision) v3c_precision out
  header ← v3c_header unit.header
  headed ← put header sized
  opened ← put_precision unit.header.vuh_unit_type nal_precision headed
  filled ← put_nals unit.nal_infos nal_precision opened
  ok (release unit, filled)

-- `V3C_SIZE_PRECISION + 4 + extra + ptr + nal_infos.size() * precision`
abbrev pub unit_size : ℕ → V3cUnitInfo → ℕ → ℕ
unit_size extra unit nal_precision =
    u64 (v3c_size_precision + 4 + extra + unit.ptr + length unit.nal_infos * nal_precision)

pub get_gop_size : Bool → ℕ → V3cFileMap → Result ℕ
get_gop_size hdr_byte index m = do
  vps ← at m.vps_units index
  vps_nal ← at vps.nal_infos 0
  ad ← at m.ad_units index
  ovd ← at m.ovd_units index
  gvd ← at m.gvd_units index
  avd ← at m.avd_units index
  ok (
      u64 (
        (if hdr_byte then 1 else 0)
        + u64 (v3c_size_precision + vps_nal.size)
        + unit_size 1 ad atlas_nal_size_precision
        + unit_size 0 ovd video_nal_size_precision
        + unit_size 0 gvd video_nal_size_precision
        + unit_size 0 avd video_nal_size_precision))

-- The parameter set: the size of its first NAL unit, and the block of its last.
pub put_vps : V3cUnitInfo → Out → Result Out
put_vps unit out = do
  first ← at unit.nal_infos 0
  sized ← put_size (u32 first.size) v3c_size_precision out
  last ← require Fault.bad_access (get_last? unit.nal_infos)
  put_block last.buf (u32 first.size) sized

-- One unit of the group, by a copy of the map's entry.
pub put_unit : List V3cUnitInfo → ℕ → ℕ → Out → Result Out
unfolding create_v3c_unit
put_unit units index nal_precision out = do
  unit ← at units index
  (released, written) ← create_v3c_unit unit v3c_size_precision nal_precision out
  ok written

pub put_first_byte : Bool → Out → Result Out
unfolding put
put_first_byte hdr_byte out = if hdr_byte then put (64 ∷ []) out else ok out

-- The size that is returned, and the output. The size is computed as in `get_gop_size`.
pub reconstruct_v3c_gop : Bool → Out → V3cFileMap → ℕ → Result (ℕ × Out)
reconstruct_v3c_gop hdr_byte out m index = do
  gop_size ← get_gop_size hdr_byte index m
  opened ← put_first_byte hdr_byte out
  vps ← at m.vps_units index
  with_vps ← put_vps vps opened
  with_ad ← put_unit m.ad_units index atlas_nal_size_precision with_vps
  with_ovd ← put_unit m.ovd_units index video_nal_size_precision with_ad
  with_gvd ← put_unit m.gvd_units index video_nal_size_precision with_ovd
  with_avd ← put_unit m.avd_units index video_nal_size_precision with_gvd
  ok (gop_size, with_avd)
