-- ===== src/V3c/Tests.antt =====
-- Tests of uvgrtp/v3c_util.cc on small units, and the theorems applied to them.
use rtp_benchmarks.Common.{
  ℕ, ◌<◌, ◌≡◌, ◌≢◌, refl, sym, append-nil, suc, true, List, [], ◌∷◌, ok, err, Fault, arith, length,
  replicate, ◌↔◌,
}
use rtp_benchmarks.V3c.Types.{avd, empty_file_map, is_atlas}
use rtp_benchmarks.V3c.Bytes.{convert_size_big_endian}
use rtp_benchmarks.V3c.Bytes.RoundTrip.{big_endian, combine, convert-big_endian, combine-big_endian}
use rtp_benchmarks.V3c.Header.{v3c_header, parse_v3c_header}
use rtp_benchmarks.V3c.Header.RoundTrip.{
  header_bytes, read_back, parse-v3c_header, parse-v3c_header_avd_iff,
}
use rtp_benchmarks.V3c.Mmap.{mmap_v3c_file}
use rtp_benchmarks.V3c.Mmap.Terminates.{mmap_v3c_file_terminates}
use rtp_benchmarks.V3c.Mmap.Stream.{stream_bytes, sorted, mmap_v3c_file-stream}
use rtp_benchmarks.V3c.Write.{create_v3c_unit, release, get_gop_size, reconstruct_v3c_gop}
use rtp_benchmarks.V3c.Write.Cursor.{after}
use rtp_benchmarks.V3c.Write.Units.{
  unit_body, unit_bytes, precision_bytes, nals_bytes, create_v3c_unit_lem,
}
use rtp_benchmarks.V3c.Write.Gop.{
  gop_bytes, vps_bytes, first_byte, get_gop_size-length, reconstruct_v3c_gop_lem,
}
use rtp_benchmarks.V3c.RoundTrip.{mmap_v3c_file-reconstruct_v3c_gop}
use rtp_benchmarks.V3c.Samples.{
  parameters, vps_unit, ad_unit, ovd_unit, gvd_unit, attributes, avd_unit, gop_map, gop_of, samples,
  ad_unit-IsComplete, gop_map-IsGop, samples-IsWellFormed, length-stream_bytes-samples,
}

length-gop_of : length (gop_of true) ≡ 56
unfolding gop_bytes vps_bytes first_byte unit_bytes unit_body header_bytes precision_bytes
    nals_bytes is_atlas big_endian
length-gop_of = refl

abbrev room : List ℕ
room = replicate 56 0

abbrev gop_file : List ℕ
gop_file = gop_of true

file_roundtrip_example :
    (file : List ℕ) × (reconstruct_v3c_gop true (room, 0) gop_map 0 ≡ ok (56, (file, 56)))
    × (mmap_v3c_file file 56 empty_file_map ≡ ok (true, sorted 1 samples empty_file_map))
file_roundtrip_example =
    mmap_v3c_file-reconstruct_v3c_gop gop_map 0 vps_unit ad_unit ovd_unit gvd_unit avd_unit
      parameters room 56 gop_map-IsGop refl samples-IsWellFormed (sym length-gop_of) refl

stream_example :
    mmap_v3c_file (64 ∷ stream_bytes samples) (suc (length (stream_bytes samples))) empty_file_map
    ≡ ok (true, sorted 1 samples empty_file_map)
stream_example =
    mmap_v3c_file-stream samples 64 empty_file_map samples-IsWellFormed (omega arith) (omega arith)
      (omega (arith, length-stream_bytes-samples))

reconstruct_example :
    reconstruct_v3c_gop true (room, 0) gop_map 0
    ≡ ok (length (gop_of true), after [] (gop_of true) room)
reconstruct_example =
    reconstruct_v3c_gop_lem true gop_map 0 vps_unit ad_unit ovd_unit gvd_unit avd_unit parameters []
      room gop_map-IsGop refl (refl, refl, omega arith) (omega (arith, length-gop_of))
      (omega (arith, length-gop_of))

gop_size_example : get_gop_size true 0 gop_map ≡ ok (length (gop_of true))
gop_size_example =
    get_gop_size-length true gop_map 0 vps_unit ad_unit ovd_unit gvd_unit avd_unit parameters
      gop_map-IsGop refl (refl, refl, omega arith)

length-ad_unit_bytes : length (unit_bytes 2 ad_unit) ≡ 12
unfolding unit_bytes unit_body header_bytes precision_bytes nals_bytes is_atlas big_endian
length-ad_unit_bytes = refl

create_unit_example :
    create_v3c_unit ad_unit 3 2 (room, 0)
    ≡ ok (release ad_unit, after [] (unit_bytes 2 ad_unit) room)
create_unit_example =
    create_v3c_unit_lem 2 ad_unit [] room (omega arith) (omega arith) ad_unit-IsComplete
      (omega (arith, length-ad_unit_bytes)) (omega (arith, length-ad_unit_bytes))

terminates_example : mmap_v3c_file (64 ∷ 0 ∷ 0 ∷ []) 3 empty_file_map ≢ err Fault.out_of_fuel
terminates_example =
    mmap_v3c_file_terminates (64 ∷ 0 ∷ 0 ∷ []) 3 empty_file_map (omega arith) (omega arith)

attribute_header :
    v3c_header (record { vuh_unit_type = 4; vuh = avd attributes })
    ≡ ok (header_bytes (avd attributes))
attribute_header =
    (parse-v3c_header 4 (avd attributes) avd_unit.header (header_bytes (avd attributes)) 0 []
      (omega arith) (omega arith) (sym (append-nil (header_bytes (avd attributes))))).0

attribute_header_example :
    (v3c_header (record { vuh_unit_type = 4; vuh = avd attributes })
      ≡ ok (header_bytes (avd attributes)))
    × (parse_v3c_header avd_unit.header (header_bytes (avd attributes)) 0
        ≡ ok (record { vuh_unit_type = 4; vuh = read_back (avd attributes) }))
attribute_header_example =
    parse-v3c_header 4 (avd attributes) avd_unit.header (header_bytes (avd attributes)) 0 []
      (omega arith) (omega arith) (sym (append-nil (header_bytes (avd attributes))))

attribute_kept_example :
    (parse_v3c_header avd_unit.header (header_bytes (avd attributes)) 0
      ≡ ok (record { vuh_unit_type = 4; vuh = avd attributes }))
    ↔ ((33 < 64) × (6 < 8))
attribute_kept_example =
    parse-v3c_header_avd_iff attributes avd_unit.header (header_bytes (avd attributes)) 0
      (header_bytes (avd attributes)) [] (omega arith) attribute_header (omega arith)
      (sym (append-nil (header_bytes (avd attributes))))

size_field_example : convert_size_big_endian 70000 (0 ∷ 0 ∷ 0 ∷ []) 3 ≡ ok (big_endian 3 70000)
size_field_example = convert-big_endian 3 70000 (0 ∷ 0 ∷ 0 ∷ []) (omega arith) refl

size_roundtrip_example : combine (big_endian 3 70000) ≡ 70000
size_roundtrip_example = combine-big_endian 3 70000 (omega arith) (omega arith) (omega arith)
