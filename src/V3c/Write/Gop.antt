-- ===== src/V3c/Write/Gop.antt =====
-- A group of pictures: the bytes of its five units, that `reconstruct_v3c_gop` writes them, and
-- that the size which it returns, and `get_gop_size` too, is their number.
use rtp_benchmarks.Common.{
  ◌==◌, ◌||◌, ℕ, ◌+◌, ◌*◌, ◌^◌, ◌≤◌, ◌<◌, ◌≡◌, refl, ap, Bool, true, false, List, [], ◌∷◌, ◌++◌,
  some, Result, ok, ◌>>=◌, >>=_assoc, arith, length, length-append, get_elem?, u32, if◌then◌else◌,
}
use rtp_benchmarks.V3c.Types.{NalInfo, V3cUnitInfo, V3cFileMap}
use rtp_benchmarks.V3c.Bytes.RoundTrip.{big_endian, length-big_endian}
use rtp_benchmarks.V3c.Write.{
  Out, put_size, put_block, put_vps, put_unit, put_first_byte, get_gop_size, reconstruct_v3c_gop,
  unit_size,
}
use rtp_benchmarks.V3c.Write.Cursor.{Writes, after, put-Writes, nothing-Writes, seq-Writes}
use rtp_benchmarks.V3c.Write.Units.{
  IsHeld, IsComplete, block_of, unit_body, unit_bytes, put_size-Writes, put_block-Writes,
  create_v3c_unit_lem, length-unit_body,
}

-- The units that the map has for the group `index`, all received, with fields that fit the format.
pub record IsGop (m : V3cFileMap) (index : ℕ) (vps ad ovd gvd avd : V3cUnitInfo) : Type 0 where
  pub vps_at : get_elem? m.vps_units index ≡ some vps
  pub ad_at : get_elem? m.ad_units index ≡ some ad
  pub ovd_at : get_elem? m.ovd_units index ≡ some ovd
  pub gvd_at : get_elem? m.gvd_units index ≡ some gvd
  pub avd_at : get_elem? m.avd_units index ≡ some avd
  pub ad_type : ad.header.vuh_unit_type ≡ 1
  pub ovd_type : ovd.header.vuh_unit_type ≡ 2
  pub gvd_type : gvd.header.vuh_unit_type ≡ 3
  pub avd_type : avd.header.vuh_unit_type ≡ 4
  pub ad_complete : IsComplete 2 ad
  pub ovd_complete : IsComplete 4 ovd
  pub gvd_complete : IsComplete 4 gvd
  pub avd_complete : IsComplete 4 avd

unfoldable pub vps_bytes : NalInfo → List ℕ
vps_bytes p = big_endian 3 p.size ++ block_of p

unfoldable pub first_byte : Bool → List ℕ
first_byte hdr_byte = if hdr_byte then 64 ∷ [] else []

unfoldable pub gop_bytes :
    Bool → NalInfo → V3cUnitInfo → V3cUnitInfo → V3cUnitInfo → V3cUnitInfo → List ℕ
gop_bytes hdr_byte p ad ovd gvd avd =
    first_byte hdr_byte
    ++ (vps_bytes p
        ++ (unit_bytes 2 ad ++ (unit_bytes 4 ovd ++ (unit_bytes 4 gvd ++ unit_bytes 4 avd))))

put_first_byte-Writes : (b : Bool) → Writes (put_first_byte b) (first_byte b)
unfolding put_first_byte first_byte
put_first_byte-Writes true = put-Writes (64 ∷ [])
put_first_byte-Writes false = nothing-Writes

put_vps-Writes :
    (vps : V3cUnitInfo) (p : NalInfo)
    → vps.nal_infos ≡ p ∷ []
    → IsHeld p
    → Writes (put_vps vps) (vps_bytes p)
unfolding put_vps vps_bytes
put_vps-Writes vps p e (b, l, small) =
    let same : u32 p.size ≡ p.size = omega arith in
    rw (e, same)
      (seq-Writes (put_size p.size 3) (put_block p.buf p.size) _ _
        (put_size-Writes p.size 3 (omega arith)) (put_block-Writes p.buf (block_of p) p.size b l))

put_unit-Writes :
    (units : List V3cUnitInfo) (index n : ℕ) (u : V3cUnitInfo)
    → 1 ≤ n
    → n ≤ 4
    → get_elem? units index ≡ some u
    → IsComplete n u
    → Writes (put_unit units index n) (unit_bytes n u)
unfolding put_unit
put_unit-Writes units index n u lo hi e c pre rest h k =
    rw (e, create_v3c_unit_lem n u pre rest lo hi c h k)

-- The steps from one unit on, for the group `index`.
module _ (m : V3cFileMap) (index : ℕ) where
  abbrev from_gvd : Out → Result Out
  from_gvd o = put_unit m.gvd_units index 4 o >>= put_unit m.avd_units index 4

  abbrev from_ovd : Out → Result Out
  from_ovd o = put_unit m.ovd_units index 4 o >>= from_gvd

  abbrev from_ad : Out → Result Out
  from_ad o = put_unit m.ad_units index 2 o >>= from_ovd

  abbrev from_vps : V3cUnitInfo → Out → Result Out
  from_vps vps o = put_vps vps o >>= from_ad

  module _ (vps ad ovd gvd avd : V3cUnitInfo) (g : IsGop m index vps ad ovd gvd avd) where
    from_gvd-Writes : Writes from_gvd (unit_bytes 4 gvd ++ unit_bytes 4 avd)
    from_gvd-Writes =
        seq-Writes (put_unit m.gvd_units index 4) (put_unit m.avd_units index 4) _ _
          (put_unit-Writes m.gvd_units index 4 gvd (omega arith) (omega arith) g.gvd_at
            g.gvd_complete)
          (put_unit-Writes m.avd_units index 4 avd (omega arith) (omega arith) g.avd_at
            g.avd_complete)

    from_ad-Writes :
        Writes from_ad
          (unit_bytes 2 ad ++ (unit_bytes 4 ovd ++ (unit_bytes 4 gvd ++ unit_bytes 4 avd)))
    from_ad-Writes =
        seq-Writes (put_unit m.ad_units index 2) from_ovd _ _
          (put_unit-Writes m.ad_units index 2 ad (omega arith) (omega arith) g.ad_at g.ad_complete)
          (seq-Writes (put_unit m.ovd_units index 4) from_gvd _ _
            (put_unit-Writes m.ovd_units index 4 ovd (omega arith) (omega arith) g.ovd_at
              g.ovd_complete)
            from_gvd-Writes)

    gop-Writes :
        (b : Bool) (p : NalInfo)
        → vps.nal_infos ≡ p ∷ []
        → IsHeld p
        → Writes (λ o. put_first_byte b o >>= from_vps vps) (gop_bytes b p ad ovd gvd avd)
    unfolding gop_bytes
    gop-Writes b p e h =
        seq-Writes (put_first_byte b) (from_vps vps) _ _ (put_first_byte-Writes b)
          (seq-Writes (put_vps vps) from_ad _ _ (put_vps-Writes vps p e h) from_ad-Writes)

length-unit_bytes :
    (n : ℕ) (u : V3cUnitInfo)
    → IsComplete n u
    → length (unit_bytes n u)
      ≡ 7
        + (if u.header.vuh_unit_type == 1 || u.header.vuh_unit_type == 6 then 1 else 0)
        + u.ptr
        + length u.nal_infos * n
unfolding unit_bytes
length-unit_bytes n u c = omega (
  arith,
  length-append {0} (big_endian 3 (length (unit_body n u))) (unit_body n u),
  length-big_endian 3 (length (unit_body n u)),
  length-unit_body n u c,
)

-- The size of one unit, as the program adds it up.
unit_size-length :
    (extra n : ℕ) (u : V3cUnitInfo)
    → IsComplete n u
    → extra ≡ (if u.header.vuh_unit_type == 1 || u.header.vuh_unit_type == 6 then 1 else 0)
    → (unit_size extra u n ≡ length (unit_bytes n u)) × (length (unit_bytes n u) < 2 ^ 25)
unit_size-length extra n u c e =
    let l = length-unit_bytes n u c in let b = length-unit_body n u c in (omega arith, omega arith)

pub length-gop_bytes :
    (b : Bool) (p : NalInfo) (ad ovd gvd avd : V3cUnitInfo)
    → IsHeld p
    → length (gop_bytes b p ad ovd gvd avd)
      ≡ (if b then 1 else 0)
        + (3 + p.size)
        + length (unit_bytes 2 ad)
        + length (unit_bytes 4 ovd)
        + length (unit_bytes 4 gvd)
        + length (unit_bytes 4 avd)
unfolding gop_bytes vps_bytes first_byte
length-gop_bytes b p ad ovd gvd avd (e, l, small) = ground (
  arith,
  length-append {0} (first_byte b) (
      vps_bytes p
      ++ (unit_bytes 2 ad ++ (unit_bytes 4 ovd ++ (unit_bytes 4 gvd ++ unit_bytes 4 avd)))),
  length-append {0} (vps_bytes p)
      (unit_bytes 2 ad ++ (unit_bytes 4 ovd ++ (unit_bytes 4 gvd ++ unit_bytes 4 avd))),
  length-append {0} (unit_bytes 2 ad) (unit_bytes 4 ovd ++ (unit_bytes 4 gvd ++ unit_bytes 4 avd)),
  length-append {0} (unit_bytes 4 ovd) (unit_bytes 4 gvd ++ unit_bytes 4 avd),
  length-append {0} (unit_bytes 4 gvd) (unit_bytes 4 avd),
  length-append {0} (big_endian 3 p.size) (block_of p),
  length-big_endian 3 p.size,
)

pub gop_bytes_small :
    (b : Bool) (m : V3cFileMap) (index : ℕ) (vps ad ovd gvd avd : V3cUnitInfo) (p : NalInfo)
    → IsGop m index vps ad ovd gvd avd
    → IsHeld p
    → length (gop_bytes b p ad ovd gvd avd) < 2 ^ 33
gop_bytes_small b m index vps ad ovd gvd avd p g (e, l, small) =
    let whole = length-gop_bytes b p ad ovd gvd avd (e, l, small) in
    let (a1, a2) = unit_size-length 1 2 ad g.ad_complete (rw g.ad_type refl) in
    let (o1, o2) = unit_size-length 0 4 ovd g.ovd_complete (rw g.ovd_type refl) in
    let (v1, v2) = unit_size-length 0 4 gvd g.gvd_complete (rw g.gvd_type refl) in
    let (t1, t2) = unit_size-length 0 4 avd g.avd_complete (rw g.avd_type refl) in ground arith

-- For a group whose units have all been received, with header fields that fit the format (so an id
-- below 16), NAL units below 2 ^ 32 bytes and units below 2 ^ 24, and whose parameter set is one NAL
-- unit, `get_gop_size` answers the number of bytes of the group.
pub get_gop_size-length :
    (b : Bool) (m : V3cFileMap) (index : ℕ) (vps ad ovd gvd avd : V3cUnitInfo) (p : NalInfo)
    → IsGop m index vps ad ovd gvd avd
    → vps.nal_infos ≡ p ∷ []
    → IsHeld p
    → get_gop_size b index m ≡ ok (length (gop_bytes b p ad ovd gvd avd))
unfolding get_gop_size
get_gop_size-length b m index vps ad ovd gvd avd p g e h =
    let l = length-gop_bytes b p ad ovd gvd avd h in
    let (a1, a2) = unit_size-length 1 2 ad g.ad_complete (rw g.ad_type refl) in
    let (o1, o2) = unit_size-length 0 4 ovd g.ovd_complete (rw g.ovd_type refl) in
    let (v1, v2) = unit_size-length 0 4 gvd g.gvd_complete (rw g.gvd_type refl) in
    let (t1, t2) = unit_size-length 0 4 avd g.avd_complete (rw g.avd_type refl) in
    rw (g.vps_at, e, g.ad_at, g.ovd_at, g.gvd_at, g.avd_at) (ground arith)

-- `reconstruct_v3c_gop` on a group whose units have all been received, with header fields that fit the
-- format (so an id below 16), NAL units below 2 ^ 32 bytes and units below 2 ^ 24, and whose parameter
-- set is one NAL unit, writes exactly the bytes of
-- the group at the cursor, moves the cursor behind them, leaves the rest of the buffer as it was,
-- and returns their number, if the buffer has room for them.
pub reconstruct_v3c_gop_lem :
    (b : Bool) (m : V3cFileMap) (index : ℕ) (vps ad ovd gvd avd : V3cUnitInfo) (p : NalInfo)
    (pre rest : List ℕ)
    → IsGop m index vps ad ovd gvd avd
    → vps.nal_infos ≡ p ∷ []
    → IsHeld p
    → length (gop_bytes b p ad ovd gvd avd) ≤ length rest
    → length pre + length (gop_bytes b p ad ovd gvd avd) < 2 ^ 64
    → reconstruct_v3c_gop b (pre ++ rest, length pre) m index
      ≡ ok (length (gop_bytes b p ad ovd gvd avd), after pre (gop_bytes b p ad ovd gvd avd) rest)
unfolding reconstruct_v3c_gop
reconstruct_v3c_gop_lem b m index vps ad ovd gvd avd p pre rest g e h k l =
    let whole = gop-Writes m index vps ad ovd gvd avd g b p e h pre rest k l in
    let finish : (Out → Result (ℕ × Out)) = λ o. ok (length (gop_bytes b p ad ovd gvd avd), o) in
    rw (get_gop_size-length b m index vps ad ovd gvd avd p g e h, g.vps_at)
      (simp (>>=_assoc) at (ap (λ r. r >>= finish) whole))
