-- ===== src/V3c/Receive/Ready.antt =====
-- When `is_gop_ready` answers true, in terms of the frames that the four streams have received.
use rtp_benchmarks.Common.{
  ℕ, zero, suc, ◌+◌, ◌*◌, ◌≤◌, ◌<◌, ◌≡◌, refl, sym, ap, ◌∙◌, true, List, [], ◌∷◌, ◌++◌, ◌↔◌, arith,
  length, length-append, All,
}
use rtp_benchmarks.V3c.Types.{NalInfo, V3cUnitInfo, V3cFileMap}
use rtp_benchmarks.V3c.Receive.{is_ready_at, is_gop_ready}
use rtp_benchmarks.V3c.Receive.Collects.{payloads, received, IsFull, IsLast, IsCollected}

length-payloads : (ps : List NalInfo) → length (payloads ps) ≡ length ps
length-payloads [] = refl
length-payloads (p ∷ ps) = ap suc (length-payloads ps)

-- The unit `index` is ready exactly when `index + 1` units' worth of blocks are there.
is_ready_at_iff :
    (max_size index : ℕ) (us : List V3cUnitInfo) (u : V3cUnitInfo)
    → 0 < max_size
    → All (IsFull max_size) us
    → IsLast max_size u
    → (is_ready_at (us ++ (u ∷ [])) index ≡ true)
      ↔ ((index + 1) * max_size ≤ length (received (us ++ (u ∷ []))))
is_ready_at_iff max_size zero [] u h a l =
    let n = length-append {0} (payloads u.nal_infos) [] in
    let k = length-payloads u.nal_infos in
    let r = l.room in let m = l.marked in (λ e. ground arith, λ e. ground arith)
is_ready_at_iff max_size (suc index) [] u h a l =
    let n = length-append {0} (payloads u.nal_infos) [] in
    let k = length-payloads u.nal_infos in
    let r = l.room in (λ e. ground arith, λ e. absurd (omega arith))
is_ready_at_iff max_size zero (v ∷ us) u h (f, a) l =
    let n = length-append {0} (payloads v.nal_infos) (received (us ++ (u ∷ []))) in
    let k = length-payloads v.nal_infos in
    let r = f.filled in let m = f.marked in (λ e. omega arith, λ e. ground arith)
is_ready_at_iff max_size (suc index) (v ∷ us) u h (f, a) l =
    let n = length-append {0} (payloads v.nal_infos) (received (us ++ (u ∷ []))) in
    let k = length-payloads v.nal_infos in
    let r = f.filled in
    let rest = is_ready_at_iff max_size index us u h a l in
    let same : is_ready_at (v ∷ (us ++ (u ∷ []))) (suc index) ≡ is_ready_at (us ++ (u ∷ [])) index =
      ground arith in
    (λ e. let q = rest.0 (sym same ∙ e) in omega arith, λ e. same ∙ rest.1 (omega arith))

is_ready_at-IsCollected :
    (t max_size index : ℕ) (frames : List (List ℕ)) (units : List V3cUnitInfo)
    → 0 < max_size
    → IsCollected t max_size frames units
    → (is_ready_at units index ≡ true) ↔ ((index + 1) * max_size ≤ length frames)
is_ready_at-IsCollected t max_size index frames units h c =
    rw (sym c.complete, c.shape)
      (is_ready_at_iff max_size index c.full c.last h c.full_ok c.last_ok)

is_gop_ready_iff :
    (index : ℕ) (m : V3cFileMap)
    → (is_gop_ready index m ≡ true) ↔ (
        (index < length m.vps_units)
        × (is_ready_at m.ad_units index ≡ true)
        × (is_ready_at m.ovd_units index ≡ true)
        × (is_ready_at m.gvd_units index ≡ true)
        × (is_ready_at m.avd_units index ≡ true))
unfolding is_gop_ready
is_gop_ready_iff index m = (λ e. ground arith, λ e. ground arith)

-- With the streams collected into units of the given sizes, the group `index` is ready exactly when
-- its parameter set is there and each of the four streams has received the frames of `index + 1`
-- units.
pub is_gop_ready-IsCollected :
    (index : ℕ) (m : V3cFileMap) (atlas_frames ovd_frames gvd_frames avd_frames : List (List ℕ))
    (a o g v : ℕ)
    → (0 < a) × (0 < o) × (0 < g) × (0 < v)
    → IsCollected 1 a atlas_frames m.ad_units
    → IsCollected 2 o ovd_frames m.ovd_units
    → IsCollected 3 g gvd_frames m.gvd_units
    → IsCollected 4 v avd_frames m.avd_units
    → (is_gop_ready index m ≡ true) ↔ (
        (index < length m.vps_units)
        × ((index + 1) * a ≤ length atlas_frames)
        × ((index + 1) * o ≤ length ovd_frames)
        × ((index + 1) * g ≤ length gvd_frames)
        × ((index + 1) * v ≤ length avd_frames))
is_gop_ready-IsCollected index m atlas_frames ovd_frames gvd_frames avd_frames a o g v
      (ha, ho, hg, hv) ca co cg cv =
    let whole = is_gop_ready_iff index m in
    let ad_iff = is_ready_at-IsCollected 1 a index atlas_frames m.ad_units ha ca in
    let ovd_iff = is_ready_at-IsCollected 2 o index ovd_frames m.ovd_units ho co in
    let gvd_iff = is_ready_at-IsCollected 3 g index gvd_frames m.gvd_units hg cg in
    let avd_iff = is_ready_at-IsCollected 4 v index avd_frames m.avd_units hv cv in
    (
      λ e.
          let (n, x, y, z, w) = whole.0 e in (n, ad_iff.0 x, ovd_iff.0 y, gvd_iff.0 z, avd_iff.0 w),
      λ (n, x, y, z, w). whole.1 (n, ad_iff.1 x, ovd_iff.1 y, gvd_iff.1 z, avd_iff.1 w),
    )
