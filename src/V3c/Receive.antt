-- ===== src/V3c/Receive.antt =====
-- `init_mmap`, `copy_rtp_payload` and `is_gop_ready` of uvgrtp/v3c_util.cc: the receiving end
-- collects the NAL units of each stream in a list of V3C units, a fixed number to a unit.
pub mod Collects
pub mod Ready
pub mod Runs
use rtp_benchmarks.Common.{
  ℕ, ◌+◌, Bool, true, false, not, List, [], ◌∷◌, ◌++◌, Option, none, some, Result, ok, Fault, ◌>>=◌,
  require, length, get_elem?, get_last?, ltb, leb, ◌==◌, if◌then◌else◌, u8, add64,
}
use rtp_benchmarks.V3c.Types.{
  ad, ovd, gvd, avd, V3cUnitHeader, blank_header, NalInfo, V3cUnitInfo, V3cFileMap, empty_file_map,
  at, v3c_ad, v3c_ovd, v3c_gvd, v3c_avd,
}

-- A new unit, with no NAL units yet.
abbrev pub new_unit : V3cUnitHeader → V3cUnitInfo
new_unit hdr = record { header = hdr; nal_infos = []; ptr = 0; ready = false }

-- The header that the `switch` of `copy_rtp_payload` makes for the unit number `n`; `n` is cast to
-- a byte. The braces leave the members that they do not name at zero.
pub numbered_header : ℕ → ℕ → V3cUnitHeader
numbered_header t n =
    if t == v3c_ad
    then record {
      vuh_unit_type = t;
      vuh = ad (record { vuh_v3c_parameter_set_id = u8 n; vuh_atlas_id = 0 });
    }
    else if t == v3c_ovd
    then record {
      vuh_unit_type = t;
      vuh = ovd (record { vuh_v3c_parameter_set_id = u8 n; vuh_atlas_id = 0 });
    }
    else if t == v3c_gvd
    then record {
      vuh_unit_type = t;
      vuh = gvd (record {
        vuh_v3c_parameter_set_id = u8 n;
        vuh_atlas_id = 0;
        vuh_map_index = 0;
        vuh_auxiliary_video_flag = false;
      });
    }
    else if t == v3c_avd
    then record {
      vuh_unit_type = t;
      vuh = avd (record {
        vuh_v3c_parameter_set_id = u8 n;
        vuh_atlas_id = 0;
        vuh_attribute_index = 0;
        vuh_attribute_partition_index = 0;
        vuh_map_index = 0;
        vuh_auxiliary_video_flag = false;
      });
    }
    else blank_header t

-- One unit, numbered 0, in each of the four lists.
pub init_mmap : V3cFileMap
unfolding numbered_header
init_mmap = record empty_file_map {
  ad_units = new_unit (numbered_header v3c_ad 0) ∷ [];
  ovd_units = new_unit (numbered_header v3c_ovd 0) ∷ [];
  gvd_units = new_unit (numbered_header v3c_gvd 0) ∷ [];
  avd_units = new_unit (numbered_header v3c_avd 0) ∷ [];
}

-- An assignment through `units->back()`.
abbrev pub set_last {ℓ} : {A : Type ℓ} → A → List A → List A
set_last v [] = []
set_last v (x ∷ []) = v ∷ []
set_last v (x ∷ y ∷ xs) = x ∷ set_last v (y ∷ xs)

-- `units->back()`, which is undefined on an empty vector.
abbrev pub back {ℓ} : {A : Type ℓ} → List A → Result A
back xs = require Fault.bad_access (get_last? xs)

-- The first `if`: a full last unit is followed by a new one.
pub start_unit : List V3cUnitInfo → ℕ → Result (List V3cUnitInfo)
unfolding numbered_header
start_unit units max_size = do
  last ← back units
  ok (
      if length last.nal_infos == max_size
      then units ++ (new_unit (numbered_header last.header.vuh_unit_type (length units)) ∷ [])
      else units)

-- The unit with the payload of a frame in a block of its own.
pub push_payload : List ℕ → V3cUnitInfo → V3cUnitInfo
push_payload payload u = record u {
  nal_infos =
      u.nal_infos ++ (record { location = u.ptr; size = length payload; buf = some payload } ∷ []);
  ptr = add64 u.ptr (length payload);
}

-- The second `if`.
pub add_payload : List V3cUnitInfo → ℕ → List ℕ → Result (List V3cUnitInfo)
unfolding push_payload
add_payload units max_size payload = do
  last ← back units
  ok (
      if leb (length last.nal_infos) max_size
      then set_last (push_payload payload last) units
      else units)

-- The third `if`.
pub mark_ready : List V3cUnitInfo → ℕ → Result (List V3cUnitInfo)
mark_ready units max_size = do
  last ← back units
  ok (
      if length last.nal_infos == max_size
      then set_last (record last { ready = true }) units
      else units)

-- The frame is its payload, which has `payload_len` bytes.
pub copy_rtp_payload : List V3cUnitInfo → ℕ → List ℕ → Result (List V3cUnitInfo)
copy_rtp_payload units max_size payload = do
  started ← start_unit units max_size
  added ← add_payload started max_size payload
  mark_ready added max_size

-- `units.size() < index + 1 || !units.at(index).ready`, negated; `at` is reached in range only.
abbrev is_ready_at : List V3cUnitInfo → ℕ → Bool
is_ready_at units index =
    if ltb (length units) (index + 1)
    then false
    else elim (get_elem? units index) [ none ↦ false | some u ↦ u.ready ]

pub is_gop_ready : ℕ → V3cFileMap → Bool
is_gop_ready index m =
    if ltb (length m.vps_units) (index + 1)
    then false
    else if not (is_ready_at m.ad_units index)
    then false
    else if not (is_ready_at m.ovd_units index)
    then false
    else if not (is_ready_at m.gvd_units index)
    then false
    else if not (is_ready_at m.avd_units index)
    then false
    else true
