-- ===== src/V3c/Header/RoundTrip.antt =====
-- What `parse_v3c_header` reads back from the header that `create_v3c_unit` wrote.
use rtp_benchmarks.Common.{
  ℕ, ◌+◌, ◌*◌, ◌/◌, ◌%◌, ◌^◌, ◌<◌, ◌≡◌, refl, sym, ap, ◌∙◌, Bool, true, List, [], ◌∷◌, ◌++◌, some,
  ok, arith, bit_or, bit_and, ltb, length, ◌↔◌, u8, add64, get_elem?, drop, get_elem?-drop,
}
use rtp_benchmarks.Common.Bits.{bit_or_disjoint, every_below, every_below_lem}
use rtp_benchmarks.Common.{Result, err}
use rtp_benchmarks.V3c.Masks
use rtp_benchmarks.V3c.Types.{Vuh, ad, ovd, gvd, avd, pvd, cad, VuhAvd, V3cUnitHeader}
use rtp_benchmarks.V3c.Header.{of_bool, to_bool, v3c_header, parse_v3c_header}

-- The active member is the one of the unit type, and its fields fit the bits of the format.
abbrev pub IsStored : ℕ → Vuh → Type 0
IsStored t (ad h) = (t ≡ 1) × (h.vuh_v3c_parameter_set_id < 16) × (h.vuh_atlas_id < 64)
IsStored t (ovd h) = (t ≡ 2) × (h.vuh_v3c_parameter_set_id < 16) × (h.vuh_atlas_id < 64)
IsStored t (gvd h) =
    (t ≡ 3) × (h.vuh_v3c_parameter_set_id < 16) × (h.vuh_atlas_id < 64) × (h.vuh_map_index < 16)
IsStored t (avd h) =
    (t ≡ 4)
    × (h.vuh_v3c_parameter_set_id < 16)
    × (h.vuh_atlas_id < 64)
    × (h.vuh_attribute_index < 128)
    × (h.vuh_attribute_partition_index < 32)
    × (h.vuh_map_index < 16)
IsStored t (pvd h) = (t ≡ 5) × (h.vuh_v3c_parameter_set_id < 16) × (h.vuh_atlas_id < 64)
IsStored t (cad p) = (t ≡ 6) × (p < 16)

-- The four header bytes as arithmetic.
abbrev ids_bytes : ℕ → ℕ → ℕ → List ℕ
ids_bytes t p a = (t * 8 + p / 2) ∷ (p % 2 * 128 + a * 2) ∷ 0 ∷ 0 ∷ []

unfoldable pub header_bytes : Vuh → List ℕ
header_bytes (ad h) = ids_bytes 1 h.vuh_v3c_parameter_set_id h.vuh_atlas_id
header_bytes (ovd h) = ids_bytes 2 h.vuh_v3c_parameter_set_id h.vuh_atlas_id
header_bytes (gvd h) =
    (3 * 8 + h.vuh_v3c_parameter_set_id / 2)
    ∷ (h.vuh_v3c_parameter_set_id % 2 * 128 + h.vuh_atlas_id * 2 + h.vuh_map_index / 8)
    ∷ (h.vuh_map_index % 8 * 32 + of_bool h.vuh_auxiliary_video_flag * 16)
    ∷ 0
    ∷ []
header_bytes (avd h) =
    (4 * 8 + h.vuh_v3c_parameter_set_id / 2)
    ∷ (h.vuh_v3c_parameter_set_id % 2 * 128 + h.vuh_atlas_id * 2)
    ∷ (h.vuh_attribute_index % 64 * 4 + h.vuh_attribute_partition_index / 8 % 4)
    ∷ (h.vuh_attribute_partition_index % 8 * 32
        + h.vuh_map_index * 2
        + of_bool h.vuh_auxiliary_video_flag)
    ∷ []
header_bytes (pvd h) = ids_bytes 5 h.vuh_v3c_parameter_set_id h.vuh_atlas_id
header_bytes (cad p) = ids_bytes 6 p 0

-- The first two bytes, before the fields of a video unit are added.
write_ids_lem :
    (t p a : ℕ)
    → t < 32
    → p < 16
    → a < 64
    → (u8 (bit_or (t * 2 ^ 3) (p / 2 % 8 * 2 / 2)) ≡ t * 8 + p / 2)
      × (u8 (p % 2 * 2 ^ 7) ≡ p % 2 * 128)
      × (u8 (bit_or (p % 2 * 2 ^ 7) (a % 64 * 2)) ≡ p % 2 * 128 + a * 2)
write_ids_lem t p a ht hp ha = (
  ground (arith, bit_or_disjoint 3 t (p / 2 % 8 * 2 / 2)),
  omega arith,
  ground (arith, bit_or_disjoint 7 (p % 2) (a % 64 * 2)),
)

-- The bytes that only the two kinds of video unit with more fields have.
gvd_bytes_lem :
    (x m : ℕ) (f : Bool)
    → x < 128
    → m < 16
    → (u8 (bit_or (x * 2) (m / 8 % 2 * 8 / 8)) ≡ x * 2 + m / 8)
      × (u8 (bit_or (m % 8 * 2 ^ 5) (of_bool f * 2 ^ 4)) ≡ m % 8 * 32 + of_bool f * 16)
gvd_bytes_lem x m f hx hm = (
  ground (arith, bit_or_disjoint 1 x (m / 8 % 2 * 8 / 8)),
  ground (arith, bit_or_disjoint 5 (m % 8) (of_bool f * 2 ^ 4)),
)

avd_bytes_lem :
    (x i j m : ℕ) (f : Bool)
    → x < 128
    → i < 256
    → j < 256
    → m < 16
    → (u8 (bit_or (x * 2) (i / 64 % 2 * 64 / 2 ^ 7)) ≡ x * 2)
      × (u8 (bit_or (i % 64 * 2 ^ 2) (j / 8 % 4 * 8 / 8)) ≡ i % 64 * 4 + j / 8 % 4)
      × (u8 (bit_or (bit_or (j % 8 * 2 ^ 5) (m * 2 ^ 1)) (of_bool f))
          ≡ j % 8 * 32 + m * 2 + of_bool f)
avd_bytes_lem x i j m f hx hi hj hm = (
  ground (arith, bit_or_disjoint 1 x 0),
  ground (arith, bit_or_disjoint 2 (i % 64) (j / 8 % 4 * 8 / 8)),
  ground (
    arith,
    bit_or_disjoint 5 (j % 8) (m * 2 ^ 1),
    bit_or_disjoint 1 (j % 8 * 16 + m) (of_bool f),
  ),
)

-- `create_v3c_unit` writes the four header bytes.
pub v3c_header-header_bytes :
    (t : ℕ) (v : Vuh)
    → IsStored t v
    → v3c_header (record { vuh_unit_type = t; vuh = v }) ≡ ok (header_bytes v)
unfolding v3c_header header_bytes
v3c_header-header_bytes t (ad h) (et, hp, ha) = ground (
  arith,
  write_ids_lem 1 h.vuh_v3c_parameter_set_id h.vuh_atlas_id,
  Masks.bits_one_to_three h.vuh_v3c_parameter_set_id,
  Masks.low_bit h.vuh_v3c_parameter_set_id,
  Masks.low_six h.vuh_atlas_id,
)
v3c_header-header_bytes t (ovd h) (et, hp, ha) = ground (
  arith,
  write_ids_lem 2 h.vuh_v3c_parameter_set_id h.vuh_atlas_id,
  Masks.bits_one_to_three h.vuh_v3c_parameter_set_id,
  Masks.low_bit h.vuh_v3c_parameter_set_id,
  Masks.low_six h.vuh_atlas_id,
)
v3c_header-header_bytes t (gvd h) (et, hp, ha, hm) = ground (
  arith,
  write_ids_lem 3 h.vuh_v3c_parameter_set_id h.vuh_atlas_id,
  Masks.bits_one_to_three h.vuh_v3c_parameter_set_id,
  Masks.low_bit h.vuh_v3c_parameter_set_id,
  Masks.low_six h.vuh_atlas_id,
  gvd_bytes_lem (h.vuh_v3c_parameter_set_id % 2 * 64 + h.vuh_atlas_id) h.vuh_map_index
      h.vuh_auxiliary_video_flag,
  Masks.bit_three h.vuh_map_index,
  Masks.low_three h.vuh_map_index,
)
v3c_header-header_bytes t (avd h) (et, hp, ha, hi, hj, hm) = ground (
  arith,
  write_ids_lem 4 h.vuh_v3c_parameter_set_id h.vuh_atlas_id,
  Masks.bits_one_to_three h.vuh_v3c_parameter_set_id,
  Masks.low_bit h.vuh_v3c_parameter_set_id,
  Masks.low_six h.vuh_atlas_id,
  avd_bytes_lem (h.vuh_v3c_parameter_set_id % 2 * 64 + h.vuh_atlas_id) h.vuh_attribute_index
      h.vuh_attribute_partition_index h.vuh_map_index h.vuh_auxiliary_video_flag,
  Masks.bit_six h.vuh_attribute_index,
  Masks.low_six h.vuh_attribute_index,
  Masks.bits_three_and_four h.vuh_attribute_partition_index,
  Masks.low_three h.vuh_attribute_partition_index,
)
v3c_header-header_bytes t (pvd h) (et, hp, ha) = ground (
  arith,
  write_ids_lem 5 h.vuh_v3c_parameter_set_id h.vuh_atlas_id,
  Masks.bits_one_to_three h.vuh_v3c_parameter_set_id,
  Masks.low_bit h.vuh_v3c_parameter_set_id,
  Masks.low_six h.vuh_atlas_id,
)
v3c_header-header_bytes t (cad p) (et, hp) =
    ground (arith, write_ids_lem 6 p 0, Masks.bits_one_to_three p, Masks.low_bit p)

-- What is left of the union after a write and a read: an attribute unit loses the top bit of its
-- attribute index, and the two parts of its partition index fall on one another.
abbrev pub read_back : Vuh → Vuh
read_back (avd h) = avd (record h {
  vuh_attribute_index = h.vuh_attribute_index % 64;
  vuh_attribute_partition_index =
      bit_or (h.vuh_attribute_partition_index / 8) (h.vuh_attribute_partition_index % 8);
})
read_back v = v

-- Four bytes at `ptr` are found there by the reads of the parser.
record Loads (buf : List ℕ) (ptr b0 b1 b2 b3 : ℕ) : Type 0 where
  at_0 : get_elem? buf ptr ≡ some b0
  at_1 : get_elem? buf (add64 ptr 1) ≡ some b1
  at_2 : get_elem? buf (add64 ptr 2) ≡ some b2
  at_3 : get_elem? buf (add64 ptr 3) ≡ some b3

drop-Loads :
    (buf : List ℕ) (ptr b0 b1 b2 b3 : ℕ) (rest : List ℕ)
    → ptr + 4 < 2 ^ 64
    → drop ptr buf ≡ b0 ∷ b1 ∷ b2 ∷ b3 ∷ rest
    → Loads buf ptr b0 b1 b2 b3
drop-Loads buf ptr b0 b1 b2 b3 rest h e = record {
  at_0 = sym (get_elem?-drop ptr 0 ptr buf (omega arith)) ∙ ap (λ l. get_elem? l 0) e;
  at_1 = sym (get_elem?-drop ptr 1 (add64 ptr 1) buf (omega arith)) ∙ ap (λ l. get_elem? l 1) e;
  at_2 = sym (get_elem?-drop ptr 2 (add64 ptr 2) buf (omega arith)) ∙ ap (λ l. get_elem? l 2) e;
  at_3 = sym (get_elem?-drop ptr 3 (add64 ptr 3) buf (omega arith)) ∙ ap (λ l. get_elem? l 3) e;
}

-- The type and the two shared fields, from the first two bytes.
read_ids_lem :
    (t p y : ℕ)
    → t < 32
    → p < 16
    → y < 128
    → (u8 (bit_and (t * 8 + p / 2) 0b1111_1000 / 8) ≡ t)
      × (u8 (
            bit_or
              (bit_and (t * 8 + p / 2) 0b111 * 2 ^ 1)
              (bit_and (p % 2 * 128 + y) 0b1000_0000 / 2 ^ 7))
          ≡ p)
      × (u8 (bit_and (p % 2 * 128 + y) 0b0111_1110 / 2) ≡ y / 2)
read_ids_lem t p y ht hp hy = (
  ground (arith, Masks.top_five (t * 8 + p / 2)),
  ground (
    arith,
    Masks.low_three (t * 8 + p / 2),
    Masks.top_bit (p % 2 * 128 + y),
    bit_or_disjoint 1 (p / 2) (p % 2),
  ),
  ground (arith, Masks.middle_six (p % 2 * 128 + y)),
)

-- The third and fourth byte of the two kinds of video unit with more fields.
read_gvd_lem :
    (x m : ℕ) (f : Bool)
    → x < 128
    → m < 16
    → (u8 (
          bit_or
            (bit_and (x * 2 + m / 8) 0b1 * 2 ^ 3)
            (bit_and (m % 8 * 32 + of_bool f * 16) 0b1110_0000 / 2 ^ 5))
        ≡ m)
      × (to_bool (bit_and (m % 8 * 32 + of_bool f * 16) 0b0001_0000 / 2 ^ 4) ≡ f)
read_gvd_lem x m f hx hm = (
  ground (
    arith,
    Masks.low_bit (x * 2 + m / 8),
    Masks.top_three (m % 8 * 32 + of_bool f * 16),
    bit_or_disjoint 3 (m / 8) (m % 8),
  ),
  ground (arith, Masks.bit_four (m % 8 * 32 + of_bool f * 16)),
)

read_avd_lem :
    (x i j m : ℕ) (f : Bool)
    → x < 128
    → i < 128
    → j < 32
    → m < 16
    → (u8 (
          bit_or
            (bit_and (x * 2) 0b1 * 2 ^ 6)
            (bit_and (i % 64 * 4 + j / 8 % 4) 0b1111_1100 / 2 ^ 2))
        ≡ i % 64)
      × (bit_and (i % 64 * 4 + j / 8 % 4) 0b11 ≡ j / 8)
      × (bit_and (j % 8 * 32 + m * 2 + of_bool f) 0b1110_0000 / 2 ^ 5 ≡ j % 8)
      × (u8 (bit_and (j % 8 * 32 + m * 2 + of_bool f) 0b0001_1110 / 2 ^ 1) ≡ m)
      × (to_bool (bit_and (j % 8 * 32 + m * 2 + of_bool f) 0b1) ≡ f)
read_avd_lem x i j m f hx hi hj hm =
    let b2 : ℕ = i % 64 * 4 + j / 8 % 4 in
    let b3 : ℕ = j % 8 * 32 + m * 2 + of_bool f in
    let fits : b3 < 256 = ground arith in
    (
      ground (arith, Masks.low_bit (x * 2), Masks.top_six b2, bit_or_disjoint 6 0 (i % 64)),
      ground (arith, Masks.low_two b2),
      ground (arith, Masks.top_three b3),
      ground (arith, Masks.bits_one_to_four b3),
      ground (arith, Masks.low_bit b3),
    )

-- Two numbers below 8 have their `|` below 8.
or_three_table : every_below (λ x. ltb (bit_or (x / 8 % 4) (x % 8)) 8) 256 ≡ true
unfolding every_below
or_three_table = refl

or_three_lt : (j : ℕ) → j < 32 → bit_or (j / 8) (j % 8) < 8
or_three_lt j h =
    ground (arith, every_below_lem (λ x. ltb (bit_or (x / 8 % 4) (x % 8)) 8) 256 j or_three_table)

-- A header that `create_v3c_unit` wrote is read by `parse_v3c_header`, wherever it stands in a
-- buffer and whatever the header was before, as the header that was written, up to `read_back`.
pub parse-header_bytes :
    (old : V3cUnitHeader) (buf : List ℕ) (ptr t : ℕ) (v : Vuh) (rest : List ℕ)
    → IsStored t v
    → ptr + 4 < 2 ^ 64
    → drop ptr buf ≡ header_bytes v ++ rest
    → parse_v3c_header old buf ptr ≡ ok (record { vuh_unit_type = t; vuh = read_back v })
unfolding parse_v3c_header header_bytes
parse-header_bytes old buf ptr t (ad h) rest (et, hp, ha) hptr e =
    let l = drop-Loads buf ptr _ _ _ _ rest hptr e in
    ground (arith, l, read_ids_lem 1 h.vuh_v3c_parameter_set_id (h.vuh_atlas_id * 2))
parse-header_bytes old buf ptr t (ovd h) rest (et, hp, ha) hptr e =
    let l = drop-Loads buf ptr _ _ _ _ rest hptr e in
    ground (arith, l, read_ids_lem 2 h.vuh_v3c_parameter_set_id (h.vuh_atlas_id * 2))
parse-header_bytes old buf ptr t (pvd h) rest (et, hp, ha) hptr e =
    let l = drop-Loads buf ptr _ _ _ _ rest hptr e in
    ground (arith, l, read_ids_lem 5 h.vuh_v3c_parameter_set_id (h.vuh_atlas_id * 2))
parse-header_bytes old buf ptr t (gvd h) rest (et, hp, ha, hm) hptr e =
    let l = drop-Loads buf ptr _ _ _ _ rest hptr e in
    ground (
      arith,
      l,
      read_ids_lem 3 h.vuh_v3c_parameter_set_id (h.vuh_atlas_id * 2 + h.vuh_map_index / 8),
      read_gvd_lem (h.vuh_v3c_parameter_set_id % 2 * 64 + h.vuh_atlas_id) h.vuh_map_index
          h.vuh_auxiliary_video_flag,
    )
parse-header_bytes old buf ptr t (avd h) rest (et, hp, ha, hi, hj, hm) hptr e =
    let l = drop-Loads buf ptr _ _ _ _ rest hptr e in
    ground (
      arith,
      l,
      read_ids_lem 4 h.vuh_v3c_parameter_set_id (h.vuh_atlas_id * 2),
      read_avd_lem (h.vuh_v3c_parameter_set_id % 2 * 64 + h.vuh_atlas_id) h.vuh_attribute_index
          h.vuh_attribute_partition_index h.vuh_map_index h.vuh_auxiliary_video_flag,
      or_three_lt h.vuh_attribute_partition_index,
    )
parse-header_bytes old buf ptr t (cad p) rest (et, hp) hptr e =
    let l = drop-Loads buf ptr _ _ _ _ rest hptr e in ground (arith, l, read_ids_lem 6 p 0)

pub length-header_bytes : (v : Vuh) → length (header_bytes v) ≡ 4
unfolding header_bytes
length-header_bytes (ad h) = refl
length-header_bytes (ovd h) = refl
length-header_bytes (gvd h) = refl
length-header_bytes (avd h) = refl
length-header_bytes (pvd h) = refl
length-header_bytes (cad p) = refl

-- For every header whose active member is the one of its type and whose fields fit the format,
-- `create_v3c_unit` makes the bytes `header_bytes`, and `parse_v3c_header` reads from those bytes, at
-- any place of any buffer below 2 ^ 64, the header that was written, up to `read_back`.
pub parse-v3c_header :
    (t : ℕ) (v : Vuh) (old : V3cUnitHeader) (buf : List ℕ) (ptr : ℕ) (rest : List ℕ)
    → IsStored t v
    → ptr + 4 < 2 ^ 64
    → drop ptr buf ≡ header_bytes v ++ rest
    → (v3c_header (record { vuh_unit_type = t; vuh = v }) ≡ ok (header_bytes v))
      × (parse_v3c_header old buf ptr ≡ ok (record { vuh_unit_type = t; vuh = read_back v }))
parse-v3c_header t v old buf ptr rest s h d =
    (v3c_header-header_bytes t v s, parse-header_bytes old buf ptr t v rest s h d)

read_back-avd_iff :
    (h : VuhAvd)
    → IsStored 4 (avd h)
    → (read_back (avd h) ≡ avd h)
      ↔ ((h.vuh_attribute_index < 64) × (h.vuh_attribute_partition_index < 8))
read_back-avd_iff h s = (
  λ e. ground (arith, or_three_lt h.vuh_attribute_partition_index),
  λ f. ground (arith, bit_or_disjoint 3 0 h.vuh_attribute_partition_index),
)

abbrev header_of : Result V3cUnitHeader → V3cUnitHeader → V3cUnitHeader
header_of (ok h) other = h
header_of (err e) other = other

abbrev avd_header : VuhAvd → V3cUnitHeader
avd_header h = record { vuh_unit_type = 4; vuh = avd h }

-- The header of an attribute video unit whose fields fit the format is read back by
-- `parse_v3c_header`, from the bytes that `create_v3c_unit` makes of it, as it was written exactly
-- when its attribute index is below 64 and its attribute partition index is below 8; the format has 7
-- and 5 bits.
pub parse-v3c_header_avd_iff :
    (h : VuhAvd) (old : V3cUnitHeader) (buf : List ℕ) (ptr : ℕ) (bytes rest : List ℕ)
    → IsStored 4 (avd h)
    → v3c_header (record { vuh_unit_type = 4; vuh = avd h }) ≡ ok bytes
    → ptr + 4 < 2 ^ 64
    → drop ptr buf ≡ bytes ++ rest
    → (parse_v3c_header old buf ptr ≡ ok (record { vuh_unit_type = 4; vuh = avd h }))
      ↔ ((h.vuh_attribute_index < 64) × (h.vuh_attribute_partition_index < 8))
parse-v3c_header_avd_iff h old buf ptr bytes rest s e hp d =
    let written : bytes ≡ header_bytes (avd h) =
      ap (λ r. bytes_of r []) (sym e ∙ v3c_header-header_bytes 4 (avd h) s) in
    let reads =
      parse-header_bytes old buf ptr 4 (avd h) rest s hp (d ∙ ap (λ l. l ++ rest) written) in
    let (to, from) = read_back-avd_iff h s in
    (
      λ same. to (ap (λ r. (header_of r (avd_header h)).vuh) (sym reads ∙ same)),
      λ small. reads ∙ ap (λ v. ok (record { vuh_unit_type = 4; vuh = v })) (from small),
    )
  where
    bytes_of : Result (List ℕ) → List ℕ → List ℕ
    bytes_of (ok l) other = l
    bytes_of (err f) other = other
