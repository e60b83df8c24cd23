-- ===== src/Uvgrtp/SenderMain/Delivers.antt =====
-- What the program uvgrtp/sender.cc sends of a whole file.
use rtp_benchmarks.Common.{
  ℕ, zero, suc, ◌+◌, ◌/◌, ◌%◌, ◌^◌, ltb, ◌≤◌, ◌<◌, ◌≡◌, refl, sym, ap, ◌∙◌, true, false, List, [],
  ◌∷◌, ◌++◌, map, some, ok, arith, All, length, take, drop, get_elem?, get_elem?-drop,
  get_elem?_of_lt, if◌then◌else◌, Bool-cases, inl, inr,
}
use rtp_benchmarks.V3c.Types.{NalInfo, V3cUnitInfo, empty_file_map, v3c_ad}
use rtp_benchmarks.V3c.Mmap.Stream.{
  Sample, stream_bytes, IsWellFormed, file_samples, mmap_v3c_file-file_samples,
}
use rtp_benchmarks.V3c.Write.Units.{block_of}
use rtp_benchmarks.Uvgrtp.Sender.{Event}
use rtp_benchmarks.Uvgrtp.Sender.Sends.{pushed}
use rtp_benchmarks.Uvgrtp.AtlasSender.{is_skipped}
use rtp_benchmarks.Uvgrtp.AtlasSender.Sends.{
  is_tile_lem, keep, kept_nals, kept, atlas_sender_func-pushed,
}
use rtp_benchmarks.Uvgrtp.VpccSender.Sends.{IsInside, slice, all_nals}
use rtp_benchmarks.Uvgrtp.VpccSender.Places.{units_of, all_nals_of, HasByte, file_samples-Hold}
use rtp_benchmarks.Uvgrtp.VpccSender.Delivers.{stream_total_le}
use rtp_benchmarks.Uvgrtp.SenderMain.{Answers, send_atlas}

-- The blocks that are NAL units of a type below 30, by the six bits of their first byte.
abbrev pub tiles : List (List ℕ) → List (List ℕ)
tiles [] = []
tiles ([] ∷ blocks) = tiles blocks
tiles ((b ∷ bs) ∷ blocks) = if ltb (b / 2 % 64) 30 then (b ∷ bs) ∷ tiles blocks else tiles blocks

kept_nals-append :
    (cbuf : List ℕ) (xs ys more : List NalInfo)
    → kept_nals cbuf (xs ++ ys) more ≡ kept_nals cbuf xs (kept_nals cbuf ys more)
kept_nals-append cbuf [] ys more = refl
kept_nals-append cbuf (i ∷ is) ys more =
    ap (keep i (get_elem? cbuf i.location)) (kept_nals-append cbuf is ys more)

kept-all_nals :
    (cbuf : List ℕ) (us : List V3cUnitInfo) → kept cbuf us ≡ kept_nals cbuf (all_nals us) []
kept-all_nals cbuf [] = refl
kept-all_nals cbuf (u ∷ us) =
    ap (kept_nals cbuf u.nal_infos) (kept-all_nals cbuf us)
    ∙ sym (kept_nals-append cbuf u.nal_infos (all_nals us) [])

drop_at :
    (xs : List ℕ) (p b : ℕ) → get_elem? xs p ≡ some b → (rest : List ℕ) × (drop p xs ≡ b ∷ rest)
drop_at xs p b e = found (drop p xs) (get_elem?-drop p 0 p xs (omega arith) ∙ e)
  where
    found : (ys : List ℕ) → get_elem? ys 0 ≡ some b → (rest : List ℕ) × (ys ≡ b ∷ rest)
    found [] f = absurd (ground arith)
    found (y ∷ ys) f = (ys, ap (λ h. h ∷ ys) (ground arith))

take_suc : (n b : ℕ) (rest : List ℕ) → 1 ≤ n → (bs : List ℕ) × (take n (b ∷ rest) ≡ b ∷ bs)
take_suc zero b rest h = absurd (omega arith)
take_suc (suc n) b rest h = (take n rest, refl)

-- The first byte of a slice that has one.
first_byte :
    (cbuf : List ℕ) (i : NalInfo)
    → IsInside cbuf i
    → HasByte i
    → (b : ℕ) × (bs : List ℕ) × (slice cbuf i ≡ b ∷ bs) × (get_elem? cbuf i.location ≡ some b)
first_byte cbuf i (h, k) one =
    let (b, here) = get_elem?_of_lt cbuf i.location h in
    let (rest, from) = drop_at cbuf i.location b here in
    let (bs, bytes) = take_suc i.size b rest one in (b, bs, ap (take i.size) from ∙ bytes, here)

pub kept_nals-tiles :
    (cbuf : List ℕ) (nals : List NalInfo)
    → All (IsInside cbuf) nals
    → All HasByte nals
    → map (slice cbuf) (kept_nals cbuf nals []) ≡ tiles (map (slice cbuf) nals)
kept_nals-tiles cbuf [] a h = refl
kept_nals-tiles cbuf (i ∷ is) (k, a) (one, h) =
    let (b, bs, bytes, here) = first_byte cbuf i k one in
    let rest = kept_nals-tiles cbuf is a h in
    elim (Bool-cases (is_skipped b)) [
      | inl e ↦ rw (here, bytes, is_tile_lem b true e) rest
      | inr e ↦ rw (here, bytes, is_tile_lem b false e) (rw (bytes, rest) refl)
    ]

-- On a file that is a first byte for three-byte sizes and then well formed samples, in which each NAL
-- unit of the atlas units has a byte, the sender in the atlas format reads the whole file, ends with
-- the code 0 and pushes, in the order of the file, the bytes of those NAL units of the atlas units that
-- have a type below 30, when the library accepts each push.
pub send_atlas-tiles :
    (ss : List Sample) (b : ℕ) (a : Answers) (period : ℕ)
    → ((n : ℕ) → a.push n ≡ true)
    → All IsWellFormed ss
    → All HasByte (all_nals_of v3c_ad ss)
    → 64 ≤ b
    → b < 96
    → length (stream_bytes ss) + 2 ^ 27 < 2 ^ 64
    → (events : List Event) × (send_atlas (some (b ∷ stream_bytes ss)) a period ≡ ok (0, events))
      × (pushed events ≡ tiles (map block_of (all_nals_of v3c_ad ss)))
unfolding send_atlas
send_atlas-tiles ss b a period accepts w h lo hi small =
    let cbuf = b ∷ stream_bytes ss in
    let m = file_samples 1 ss empty_file_map in
    let units = units_of v3c_ad m in
    let bound = stream_total_le ss w in
    let parses = mmap_v3c_file-file_samples ss b empty_file_map w lo hi small in
    let (inside, bytes, total, count, nonempty) =
      file_samples-Hold cbuf v3c_ad 1 ss empty_file_map [] (omega arith) w h refl
        (record {}, refl, refl, refl, record {}) in
    let (events, runs, pushes, writes) =
      atlas_sender_func-pushed a.push a.now period cbuf accepts units inside (omega arith) in
    (
      events,
      rw (parses, runs) refl,
      pushes
          ∙ ap (map (slice cbuf)) (kept-all_nals cbuf units)
          ∙ kept_nals-tiles cbuf (all_nals units) inside nonempty
          ∙ ap tiles bytes,
    )
