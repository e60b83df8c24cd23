-- ===== src/V3c/Samples.antt =====
-- A group of units, and the sample stream that is written of it, for the tests.
use rtp_benchmarks.Common.{
  ℕ, ◌≡◌, refl, Bool, true, List, [], ◌∷◌, some, inl, inr, arith, length, All,
}
use rtp_benchmarks.V3c.Types.{
  ad, ovd, gvd, avd, Vuh, VuhAvd, NalInfo, V3cUnitInfo, V3cFileMap, empty_file_map, is_atlas,
}
use rtp_benchmarks.V3c.Bytes.RoundTrip.{big_endian}
use rtp_benchmarks.V3c.Header.RoundTrip.{header_bytes}
use rtp_benchmarks.V3c.Mmap.Stream.{Sample, sample_bytes, stream_bytes, IsWellFormed}
use rtp_benchmarks.V3c.Write.Units.{IsComplete, unit_body, unit_bytes, precision_bytes, nals_bytes}
use rtp_benchmarks.V3c.Write.Gop.{IsGop, gop_bytes}
use rtp_benchmarks.V3c.RoundTrip.{gop_samples}

abbrev pub nal : List ℕ → NalInfo
nal block = record { location = 0; size = length block; buf = some block }

abbrev pub parameters : NalInfo
parameters = nal (1 ∷ 2 ∷ [])

abbrev pub unit_of : ℕ → Vuh → List ℕ → V3cUnitInfo
unit_of t v block = record {
  header = record { vuh_unit_type = t; vuh = v };
  nal_infos = nal block ∷ [];
  ptr = length block;
  ready = true;
}

abbrev pub vps_unit : V3cUnitInfo
vps_unit = record {
  header = record {
    vuh_unit_type = 0;
    vuh = ad (record { vuh_v3c_parameter_set_id = 0; vuh_atlas_id = 0 });
  };
  nal_infos = parameters ∷ [];
  ptr = 0;
  ready = true;
}

abbrev pub ad_unit : V3cUnitInfo
ad_unit = unit_of 1 (ad (record { vuh_v3c_parameter_set_id = 3; vuh_atlas_id = 5 })) (7 ∷ 8 ∷ [])

abbrev pub ovd_unit : V3cUnitInfo
ovd_unit = unit_of 2 (ovd (record { vuh_v3c_parameter_set_id = 3; vuh_atlas_id = 5 })) (9 ∷ [])

abbrev pub gvd_unit : V3cUnitInfo
gvd_unit =
    unit_of 3
      (gvd (record {
        vuh_v3c_parameter_set_id = 3;
        vuh_atlas_id = 5;
        vuh_map_index = 9;
        vuh_auxiliary_video_flag = true;
      }))
      (10 ∷ 11 ∷ 12 ∷ [])

abbrev pub attributes : VuhAvd
attributes = record {
  vuh_v3c_parameter_set_id = 3;
  vuh_atlas_id = 5;
  vuh_attribute_index = 33;
  vuh_attribute_partition_index = 6;
  vuh_map_index = 9;
  vuh_auxiliary_video_flag = true;
}

abbrev pub avd_unit : V3cUnitInfo
avd_unit = unit_of 4 (avd attributes) (13 ∷ [])

abbrev pub gop_map : V3cFileMap
gop_map = record empty_file_map {
  vps_units = vps_unit ∷ [];
  ad_units = ad_unit ∷ [];
  ovd_units = ovd_unit ∷ [];
  gvd_units = gvd_unit ∷ [];
  avd_units = avd_unit ∷ [];
}

pub ad_unit-IsComplete : IsComplete 2 ad_unit
unfolding unit_body header_bytes precision_bytes nals_bytes is_atlas big_endian
ad_unit-IsComplete = record {
  stored = omega arith;
  held = ((refl, refl, omega arith), tt);
  counted = refl;
  fits = omega arith;
}

pub ovd_unit-IsComplete : IsComplete 4 ovd_unit
unfolding unit_body header_bytes precision_bytes nals_bytes is_atlas big_endian
ovd_unit-IsComplete = record {
  stored = omega arith;
  held = ((refl, refl, omega arith), tt);
  counted = refl;
  fits = omega arith;
}

pub gvd_unit-IsComplete : IsComplete 4 gvd_unit
unfolding unit_body header_bytes precision_bytes nals_bytes is_atlas big_endian
gvd_unit-IsComplete = record {
  stored = omega arith;
  held = ((refl, refl, omega arith), tt);
  counted = refl;
  fits = omega arith;
}

pub avd_unit-IsComplete : IsComplete 4 avd_unit
unfolding unit_body header_bytes precision_bytes nals_bytes is_atlas big_endian
avd_unit-IsComplete = record {
  stored = omega arith;
  held = ((refl, refl, omega arith), tt);
  counted = refl;
  fits = omega arith;
}

pub gop_map-IsGop : IsGop gop_map 0 vps_unit ad_unit ovd_unit gvd_unit avd_unit
gop_map-IsGop = record {
  vps_at = refl;
  ad_at = refl;
  ovd_at = refl;
  gvd_at = refl;
  avd_at = refl;
  ad_type = refl;
  ovd_type = refl;
  gvd_type = refl;
  avd_type = refl;
  ad_complete = ad_unit-IsComplete;
  ovd_complete = ovd_unit-IsComplete;
  gvd_complete = gvd_unit-IsComplete;
  avd_complete = avd_unit-IsComplete;
}

abbrev pub gop_of : Bool → List ℕ
gop_of b = gop_bytes b parameters ad_unit ovd_unit gvd_unit avd_unit

abbrev pub samples : List Sample
samples = gop_samples parameters ad_unit ovd_unit gvd_unit avd_unit

pub samples-IsWellFormed : All IsWellFormed samples
unfolding is_atlas
samples-IsWellFormed = (
  ((refl, refl, omega arith), omega arith, (1, 2 ∷ [], refl, omega arith)),
  (
    record {
      complete = ad_unit-IsComplete;
      precision = (omega arith, omega arith, inl refl);
      widths = (omega arith, tt);
    },
    (
      record {
        complete = ovd_unit-IsComplete;
        precision = (omega arith, omega arith, inr refl);
        widths = (omega arith, tt);
      },
      (
        record {
          complete = gvd_unit-IsComplete;
          precision = (omega arith, omega arith, inr refl);
          widths = (omega arith, tt);
        },
        (
          record {
            complete = avd_unit-IsComplete;
            precision = (omega arith, omega arith, inr refl);
            widths = (omega arith, tt);
          },
          tt,
        ),
      ),
    ),
  ),
)

pub length-stream_bytes-samples : length (stream_bytes samples) ≡ 55
unfolding stream_bytes sample_bytes unit_bytes unit_body header_bytes precision_bytes nals_bytes
    is_atlas big_endian
length-stream_bytes-samples = refl
