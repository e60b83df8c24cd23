-- ===== src/V3c/Types.antt =====
-- The constants and structures of uvgrtp/v3c_util.hh, and the memory that they point to.
use rtp_benchmarks.Common.{
  ℕ, ◌+◌, Bool, ◌==◌, ◌||◌, List, [], ◌++◌, Option, Result, ok, err, Fault, require, get_elem?,
  length, take, drop, leb, if◌then◌else◌,
}

-- `enum V3C_UNIT_TYPE`: the header keeps the type in a `uint8_t`.
abbrev pub v3c_vps : ℕ
v3c_vps = 0

abbrev pub v3c_ad : ℕ
v3c_ad = 1

abbrev pub v3c_ovd : ℕ
v3c_ovd = 2

abbrev pub v3c_gvd : ℕ
v3c_gvd = 3

abbrev pub v3c_avd : ℕ
v3c_avd = 4

abbrev pub v3c_pvd : ℕ
v3c_pvd = 5

abbrev pub v3c_cad : ℕ
v3c_cad = 6

-- `t == V3C_AD || t == V3C_CAD`.
unfoldable pub is_atlas : ℕ → Bool
is_atlas t = t == v3c_ad || t == v3c_cad

abbrev pub v3c_hdr_len : ℕ
v3c_hdr_len = 4

abbrev pub atlas_nal_size_precision : ℕ
atlas_nal_size_precision = 2

abbrev pub video_nal_size_precision : ℕ
video_nal_size_precision = 4

abbrev pub v3c_size_precision : ℕ
v3c_size_precision = 3

-- `vuh_ad`, `vuh_ovd` and `vuh_pvd` have the same two members.
pub record VuhAd : Type 0 where
  pub vuh_v3c_parameter_set_id : ℕ
  pub vuh_atlas_id : ℕ

pub record VuhGvd : Type 0 where
  pub vuh_v3c_parameter_set_id : ℕ
  pub vuh_atlas_id : ℕ
  pub vuh_map_index : ℕ
  pub vuh_auxiliary_video_flag : Bool

pub record VuhAvd : Type 0 where
  pub vuh_v3c_parameter_set_id : ℕ
  pub vuh_atlas_id : ℕ
  pub vuh_attribute_index : ℕ
  pub vuh_attribute_partition_index : ℕ
  pub vuh_map_index : ℕ
  pub vuh_auxiliary_video_flag : Bool

-- The union of `v3c_unit_header`, with its active member.
pub data Vuh : Type 0 where
  ad : VuhAd → Vuh
  ovd : VuhAd → Vuh
  gvd : VuhGvd → Vuh
  avd : VuhAvd → Vuh
  pvd : VuhAd → Vuh
  cad : ℕ → Vuh

pub record V3cUnitHeader : Type 0 where
  pub vuh_unit_type : ℕ
  pub vuh : Vuh

-- `v3c_unit_header hdr = {}` and `{ type, {} }`: the first member of the union is active.
abbrev pub blank_header : ℕ → V3cUnitHeader
blank_header t = record {
  vuh_unit_type = t;
  vuh = ad (record { vuh_v3c_parameter_set_id = 0; vuh_atlas_id = 0 });
}

-- `buf` is `nullptr` or the block that it points to.
pub record NalInfo : Type 0 where
  pub location : ℕ
  pub size : ℕ
  pub buf : Option (List ℕ)

pub record V3cUnitInfo : Type 0 where
  pub header : V3cUnitHeader
  pub nal_infos : List NalInfo
  pub ptr : ℕ
  pub ready : Bool

pub record V3cFileMap : Type 0 where
  pub vps_units : List V3cUnitInfo
  pub ad_units : List V3cUnitInfo
  pub ovd_units : List V3cUnitInfo
  pub gvd_units : List V3cUnitInfo
  pub avd_units : List V3cUnitInfo
  pub pvd_units : List V3cUnitInfo
  pub cad_units : List V3cUnitInfo

abbrev pub empty_file_map : V3cFileMap
empty_file_map = record {
  vps_units = [];
  ad_units = [];
  ovd_units = [];
  gvd_units = [];
  avd_units = [];
  pvd_units = [];
  cad_units = [];
}

-- `vector::at`.
abbrev pub at {ℓ} : {A : Type ℓ} → List A → ℕ → Result A
at xs i = require Fault.out_of_range (get_elem? xs i)

-- A read of one byte through a pointer into `buf`.
abbrev pub load : List ℕ → ℕ → Result ℕ
load buf i = require Fault.bad_access (get_elem? buf i)

-- The source of a `memcpy` of `n` bytes.
abbrev pub load_bytes : List ℕ → ℕ → ℕ → Result (List ℕ)
load_bytes buf p n =
    if leb (p + n) (length buf) then ok (take n (drop p buf)) else err Fault.bad_access

-- `memcpy(&buf[p], bytes, n)` for the `n` bytes of the list.
unfoldable pub store : List ℕ → ℕ → List ℕ → Result (List ℕ)
store buf p bytes =
    if leb (p + length bytes) (length buf)
    then ok (take p buf ++ (bytes ++ drop (p + length bytes) buf))
    else err Fault.bad_access
