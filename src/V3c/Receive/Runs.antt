-- ===== src/V3c/Receive/Runs.antt =====
-- Whole streams: `copy_rtp_payload` called on one frame after the other, from the lists of `init_mmap` on.
use rtp_benchmarks.Common.{
  ℕ, ◌+◌, ◌*◌, ◌^◌, ◌≤◌, ◌<◌, ◌≡◌, refl, sym, true, List, [], ◌∷◌, ◌++◌, append_assoc, append-nil,
  ◌↔◌, Result, ok, ◌>>=◌, All, length, arith,
}
use rtp_benchmarks.V3c.Types.{V3cUnitInfo, V3cFileMap}
use rtp_benchmarks.V3c.Receive.{
  init_mmap, new_unit, numbered_header, copy_rtp_payload, is_gop_ready,
}
use rtp_benchmarks.V3c.Receive.Collects.{IsCollected, copy_rtp_payload-IsCollected}
use rtp_benchmarks.V3c.Receive.Ready.{is_gop_ready-IsCollected}

-- The frames of one stream, each with its call.
pub collect : ℕ → List (List ℕ) → List V3cUnitInfo → Result (List V3cUnitInfo)
collect max_size [] units = ok units
collect max_size (frame ∷ frames) units =
    copy_rtp_payload units max_size frame >>= collect max_size frames

abbrev pub IsFrame : List ℕ → Type 0
IsFrame frame = length frame < 2 ^ 32

pub first_unit-IsCollected :
    (t max_size : ℕ)
    → 0 < max_size
    → IsCollected t max_size [] (new_unit (numbered_header t 0) ∷ [])
first_unit-IsCollected t max_size h = record {
  full = [];
  last = new_unit (numbered_header t 0);
  shape = refl;
  full_ok = tt;
  last_ok = record {
    unit = record { held = tt; counted = refl };
    room = omega arith;
    marked = ground arith;
  };
  numbered = (refl, tt);
  complete = refl;
}

-- After any number of frames from a stream, no call has failed, and its units hold the frames so
-- far in order: full and ready ones of `max_size` frames each, and a last one.
pub collect-IsCollected :
    (t max_size : ℕ) (more frames : List (List ℕ)) (units : List V3cUnitInfo)
    → IsCollected t max_size frames units
    → 0 < max_size
    → max_size < 2 ^ 31
    → All IsFrame more
    → (grown : List V3cUnitInfo) × (collect max_size more units ≡ ok grown)
      × IsCollected t max_size (frames ++ more) grown
unfolding collect
collect-IsCollected t max_size [] frames units c h w a = (units, refl, rw (append-nil frames) c)
collect-IsCollected t max_size (frame ∷ more) frames units c h w (small, a) =
    let (next, e, c') = copy_rtp_payload-IsCollected t max_size frame frames units c h w small in
    let (grown, e', c'') =
      collect-IsCollected t max_size more (frames ++ (frame ∷ [])) next c' h w a in
    (grown, rw e e', rw (sym (append_assoc frames (frame ∷ []) more)) c'')

-- The map of `init_mmap`, with parameter sets and with the units that the four streams have made.
abbrev pub with_units :
    List V3cUnitInfo
    → List V3cUnitInfo
    → List V3cUnitInfo
    → List V3cUnitInfo
    → List V3cUnitInfo
    → V3cFileMap
with_units vps ad_list ovd_list gvd_list avd_list = record init_mmap {
  vps_units = vps;
  ad_units = ad_list;
  ovd_units = ovd_list;
  gvd_units = gvd_list;
  avd_units = avd_list;
}

-- Four streams that start from `init_mmap` and each receive any frames, with the given number of
-- frames to a unit, all succeed, and then `is_gop_ready` answers true for the group `index` exactly
-- when there is a parameter set for it and each stream has received the frames of `index + 1` units.
pub init_mmap-is_gop_ready :
    (index : ℕ) (vps : List V3cUnitInfo) (ads ovds gvds avds : List (List ℕ)) (a o g v : ℕ)
    → (0 < a) × (0 < o) × (0 < g) × (0 < v)
    → (a < 2 ^ 31) × (o < 2 ^ 31) × (g < 2 ^ 31) × (v < 2 ^ 31)
    → All IsFrame ads × All IsFrame ovds × All IsFrame gvds × All IsFrame avds
    → (ad_list : List V3cUnitInfo) × (ovd_list : List V3cUnitInfo) × (gvd_list : List V3cUnitInfo)
      × (avd_list : List V3cUnitInfo) × (collect a ads init_mmap.ad_units ≡ ok ad_list)
      × (collect o ovds init_mmap.ovd_units ≡ ok ovd_list)
      × (collect g gvds init_mmap.gvd_units ≡ ok gvd_list)
      × (collect v avds init_mmap.avd_units ≡ ok avd_list)
      × ((is_gop_ready index (with_units vps ad_list ovd_list gvd_list avd_list) ≡ true) ↔ (
          (index < length vps)
          × ((index + 1) * a ≤ length ads)
          × ((index + 1) * o ≤ length ovds)
          × ((index + 1) * g ≤ length gvds)
          × ((index + 1) * v ≤ length avds)))
unfolding init_mmap
init_mmap-is_gop_ready index vps ads ovds gvds avds a o g v (ha, ho, hg, hv) (wa, wo, wg, wv)
      (fa, fo, fg, fv) =
    let (la, ea, ca) =
      collect-IsCollected 1 a ads [] init_mmap.ad_units (first_unit-IsCollected 1 a ha) ha wa fa in
    let (lo, eo, co) =
      collect-IsCollected 2 o ovds [] init_mmap.ovd_units (first_unit-IsCollected 2 o ho) ho wo
        fo in
    let (lg, eg, cg) =
      collect-IsCollected 3 g gvds [] init_mmap.gvd_units (first_unit-IsCollected 3 g hg) hg wg
        fg in
    let (lv, ev, cv) =
      collect-IsCollected 4 v avds [] init_mmap.avd_units (first_unit-IsCollected 4 v hv) hv wv
        fv in
    (
      la,
      lo,
      lg,
      lv,
      ea,
      eo,
      eg,
      ev,
      is_gop_ready-IsCollected index (with_units vps la lo lg lv) ads ovds gvds avds a o g v
          (ha, ho, hg, hv) ca co cg cv,
    )
