-- ===== src/V3c/Header.antt =====
-- `parse_v3c_header`, and the header part of `create_v3c_unit`, of uvgrtp/v3c_util.cc.
pub mod RoundTrip
use rtp_benchmarks.Common.{
  ℕ, ◌+◌, ◌-◌, Bool, true, false, not, ◌||◌, List, [], ◌∷◌, Result, ok, err, Fault, ◌>>=◌, bit_and,
  bit_or, ◌==◌, if◌then◌else◌, u8, add64, ◌<<<◌, ◌>>>◌,
}
use rtp_benchmarks.V3c.Types.{
  Vuh, ad, ovd, gvd, avd, pvd, cad, VuhAd, VuhGvd, VuhAvd, V3cUnitHeader, load, v3c_ad, v3c_ovd,
  v3c_gvd, v3c_avd, v3c_pvd, v3c_cad,
}

-- Integer to `bool`.
abbrev pub to_bool : ℕ → Bool
to_bool n = not (n == 0)

abbrev pub of_bool : Bool → ℕ
of_bool b = if b then 1 else 0

-- The first condition of `parse_v3c_header`; the second is the same without `V3C_CAD`.
pub has_atlas_id : ℕ → Bool
has_atlas_id t = t == v3c_avd || t == v3c_gvd || t == v3c_ovd || t == v3c_ad || t == v3c_pvd

pub has_parameter_set_id : ℕ → Bool
unfolding has_atlas_id
has_parameter_set_id t = has_atlas_id t || t == v3c_cad

parse_parameter_set_id : List ℕ → ℕ → ℕ → Result ℕ
unfolding has_parameter_set_id
parse_parameter_set_id buf ptr t =
    if has_parameter_set_id t
    then (do
      b0 ← load buf ptr
      b1 ← load buf (add64 ptr 1)
      ok (u8 (bit_or (bit_and b0 0b111 <<< 1) (bit_and b1 0b1000_0000 >>> 7))))
    else ok 0

parse_atlas_id : List ℕ → ℕ → ℕ → Result ℕ
unfolding has_atlas_id
parse_atlas_id buf ptr t =
    if has_atlas_id t
    then (do b1 ← load buf (add64 ptr 1); ok (u8 (bit_and b1 0b0111_1110 >>> 1)))
    else ok 0

parse_gvd : List ℕ → ℕ → ℕ → ℕ → Result Vuh
parse_gvd buf ptr parameter_set_id atlas_id = do
  b1 ← load buf (add64 ptr 1)
  b2 ← load buf (add64 ptr 2)
  ok (
      gvd (record {
        vuh_v3c_parameter_set_id = parameter_set_id;
        vuh_atlas_id = atlas_id;
        vuh_map_index = u8 (bit_or (bit_and b1 0b1 <<< 3) (bit_and b2 0b1110_0000 >>> 5));
        vuh_auxiliary_video_flag = to_bool (bit_and b2 0b0001_0000 >>> 4);
      }))

-- The two parts of the partition index are joined with no shift between them, as in the source.
parse_avd : List ℕ → ℕ → ℕ → ℕ → Result Vuh
parse_avd buf ptr parameter_set_id atlas_id = do
  b1 ← load buf (add64 ptr 1)
  b2 ← load buf (add64 ptr 2)
  b3 ← load buf (add64 ptr 3)
  ok (
      avd (record {
        vuh_v3c_parameter_set_id = parameter_set_id;
        vuh_atlas_id = atlas_id;
        vuh_attribute_index = u8 (bit_or (bit_and b1 0b1 <<< 6) (bit_and b2 0b1111_1100 >>> 2));
        vuh_attribute_partition_index =
            u8 (bit_or (bit_and b2 0b11) (bit_and b3 0b1110_0000 >>> 5));
        vuh_map_index = u8 (bit_and b3 0b0001_1110 >>> 1);
        vuh_auxiliary_video_flag = to_bool (bit_and b3 0b1);
      }))

-- The `switch`: `old` is the union before it, which the parameter set and unknown types keep.
parse_vuh : List ℕ → ℕ → ℕ → Vuh → ℕ → ℕ → Result Vuh
unfolding parse_gvd parse_avd
parse_vuh buf ptr t old parameter_set_id atlas_id =
    let ids : VuhAd = record {
      vuh_v3c_parameter_set_id = parameter_set_id;
      vuh_atlas_id = atlas_id;
    } in
    if t == v3c_ad
    then ok (ad ids)
    else if t == v3c_ovd
    then ok (ovd ids)
    else if t == v3c_gvd
    then parse_gvd buf ptr parameter_set_id atlas_id
    else if t == v3c_avd
    then parse_avd buf ptr parameter_set_id atlas_id
    else if t == v3c_pvd
    then ok (pvd ids)
    else if t == v3c_cad
    then ok (cad parameter_set_id)
    else ok old

unfoldable pub parse_v3c_header : V3cUnitHeader → List ℕ → ℕ → Result V3cUnitHeader
unfolding parse_parameter_set_id parse_atlas_id parse_vuh
parse_v3c_header hdr buf ptr = do
  b0 ← load buf ptr
  let t = u8 (bit_and b0 0b1111_1000 >>> 3)
  parameter_set_id ← parse_parameter_set_id buf ptr t
  atlas_id ← parse_atlas_id buf ptr t
  vuh ← parse_vuh buf ptr t hdr.vuh parameter_set_id atlas_id
  ok (record { vuh_unit_type = t; vuh = vuh })

-- `header.ad.vuh_v3c_parameter_set_id`: the members of the union share their first member.
pub parameter_set_id_of : Vuh → ℕ
parameter_set_id_of (ad h) = h.vuh_v3c_parameter_set_id
parameter_set_id_of (ovd h) = h.vuh_v3c_parameter_set_id
parameter_set_id_of (gvd h) = h.vuh_v3c_parameter_set_id
parameter_set_id_of (avd h) = h.vuh_v3c_parameter_set_id
parameter_set_id_of (pvd h) = h.vuh_v3c_parameter_set_id
parameter_set_id_of (cad p) = p

-- `header.ad.vuh_atlas_id`: `vuh_cad` has no second member.
pub atlas_id_of : Vuh → Result ℕ
atlas_id_of (ad h) = ok h.vuh_atlas_id
atlas_id_of (ovd h) = ok h.vuh_atlas_id
atlas_id_of (gvd h) = ok h.vuh_atlas_id
atlas_id_of (avd h) = ok h.vuh_atlas_id
atlas_id_of (pvd h) = ok h.vuh_atlas_id
atlas_id_of (cad p) = err Fault.bad_access

-- `header.gvd` and `header.avd`, read past the shared members.
gvd_of : Vuh → Result VuhGvd
gvd_of (gvd h) = ok h
gvd_of _ = err Fault.bad_access

avd_of : Vuh → Result VuhAvd
avd_of (avd h) = ok h
avd_of _ = err Fault.bad_access

-- `v3c_header` after the `if (v3c_type != V3C_CAD)`: its first two bytes.
write_ids : V3cUnitHeader → Result (ℕ × ℕ)
unfolding parameter_set_id_of atlas_id_of
write_ids hdr =
    let param_set_id = parameter_set_id_of hdr.vuh in
    let h0 = u8 (bit_or (hdr.vuh_unit_type <<< 3) (bit_and param_set_id 0b1110 >>> 1)) in
    let h1 = u8 (bit_and param_set_id 0b1 <<< 7) in
    if hdr.vuh_unit_type == v3c_cad then ok (h0, h1) else (do
      atlas_id ← atlas_id_of hdr.vuh
      ok (h0, u8 (bit_or h1 (bit_and atlas_id 0b11_1111 <<< 1))))

write_gvd : VuhGvd → ℕ → ℕ → List ℕ
write_gvd h h0 h1 =
    h0
    ∷ u8 (bit_or h1 (bit_and h.vuh_map_index 0b1000 >>> 3))
    ∷ u8 (bit_or (bit_and h.vuh_map_index 0b111 <<< 5) (of_bool h.vuh_auxiliary_video_flag <<< 4))
    ∷ 0
    ∷ []

-- `(vuh_attribute_index & 0b1000000) >> 7` is as in the source.
write_avd : VuhAvd → ℕ → ℕ → List ℕ
write_avd h h0 h1 =
    h0
    ∷ u8 (bit_or h1 (bit_and h.vuh_attribute_index 0b100_0000 >>> 7))
    ∷ u8 (
        bit_or (bit_and h.vuh_attribute_index 0b11_1111 <<< 2)
          (bit_and h.vuh_attribute_partition_index 0b1_1000 >>> 3))
    ∷ u8 (
        bit_or
          (bit_or (bit_and h.vuh_attribute_partition_index 0b111 <<< 5) (h.vuh_map_index <<< 1))
          (of_bool h.vuh_auxiliary_video_flag))
    ∷ []

-- The two conditions on `V3C_GVD` and `V3C_AVD`; the array starts as zeroes.
finish_header : V3cUnitHeader → ℕ → ℕ → Result (List ℕ)
unfolding gvd_of avd_of write_gvd write_avd
finish_header hdr h0 h1 =
    if hdr.vuh_unit_type == v3c_gvd
    then (do h ← gvd_of hdr.vuh; ok (write_gvd h h0 h1))
    else if hdr.vuh_unit_type == v3c_avd
    then (do h ← avd_of hdr.vuh; ok (write_avd h h0 h1))
    else ok (h0 ∷ h1 ∷ 0 ∷ 0 ∷ [])

-- The array `v3c_header[4]` that `create_v3c_unit` fills.
unfoldable pub v3c_header : V3cUnitHeader → Result (List ℕ)
unfolding write_ids finish_header
v3c_header hdr = do (h0, h1) ← write_ids hdr; finish_header hdr h0 h1
