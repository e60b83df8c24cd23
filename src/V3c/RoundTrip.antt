-- ===== src/V3c/RoundTrip.antt =====
-- From the receiving end to the parser: `mmap_v3c_file` reads what `reconstruct_v3c_gop` wrote.
use rtp_benchmarks.Common.{
  ℕ, zero, suc, ◌+◌, ◌^◌, ◌≤◌, ◌<◌, ◌≡◌, ap, ◌∙◌, true, List, [], ◌∷◌, append-nil, drop-nil, ok,
  arith, length, drop, All,
}
use rtp_benchmarks.V3c.Types.{NalInfo, V3cUnitInfo, V3cFileMap, empty_file_map}
use rtp_benchmarks.V3c.Mmap.{mmap_v3c_file}
use rtp_benchmarks.V3c.Mmap.Stream.{
  Sample, parameter_set, unit, sample_bytes, stream_bytes, IsWellFormed, sorted,
  mmap_v3c_file-stream,
}
use rtp_benchmarks.V3c.Write.{reconstruct_v3c_gop}
use rtp_benchmarks.V3c.Write.Cursor.{after}
use rtp_benchmarks.V3c.Write.Gop.{
  IsGop, gop_bytes, gop_bytes_small, vps_bytes, first_byte, reconstruct_v3c_gop_lem,
}

-- The samples of a group.
abbrev pub gop_samples :
    NalInfo → V3cUnitInfo → V3cUnitInfo → V3cUnitInfo → V3cUnitInfo → List Sample
gop_samples p ad ovd gvd avd =
    parameter_set p ∷ unit 2 ad ∷ unit 4 ovd ∷ unit 4 gvd ∷ unit 4 avd ∷ []

gop_bytes-stream_bytes :
    (p : NalInfo) (ad ovd gvd avd : V3cUnitInfo)
    → gop_bytes true p ad ovd gvd avd ≡ 64 ∷ stream_bytes (gop_samples p ad ovd gvd avd)
unfolding gop_bytes vps_bytes first_byte stream_bytes sample_bytes
gop_bytes-stream_bytes p ad ovd gvd avd = rw append-nil

drop_all : (n : ℕ) (xs : List ℕ) → length xs ≤ n → drop n xs ≡ []
drop_all n [] h = drop-nil n
drop_all zero (x ∷ xs) h = absurd (omega arith)
drop_all (suc n) (x ∷ xs) h = drop_all n xs (omega arith)

-- A group whose units have all been received, with header fields that fit the format (so an id below
-- 16), units below 2 ^ 24 bytes, NAL sizes that fit their fields, and one NAL unit below 2 ^ 24 bytes as
-- the parameter set, is written into a buffer of its size by `reconstruct_v3c_gop`, with its first
-- byte; on that buffer `mmap_v3c_file` answers `true`, and the list of each type gets the parameter set
-- or the unit of that type, with its header (up to `read_back`) and with the place and the size of each
-- of its NAL units.
pub mmap_v3c_file-reconstruct_v3c_gop :
    (m : V3cFileMap) (index : ℕ) (vps ad ovd gvd avd : V3cUnitInfo) (p : NalInfo) (buf : List ℕ)
    (size : ℕ)
    → IsGop m index vps ad ovd gvd avd
    → vps.nal_infos ≡ p ∷ []
    → All IsWellFormed (gop_samples p ad ovd gvd avd)
    → size ≡ length (gop_bytes true p ad ovd gvd avd)
    → length buf ≡ size
    → (file : List ℕ) × (reconstruct_v3c_gop true (buf, 0) m index ≡ ok (size, (file, size)))
      × (mmap_v3c_file file size empty_file_map
          ≡ ok (true, sorted 1 (gop_samples p ad ovd gvd avd) empty_file_map))
mmap_v3c_file-reconstruct_v3c_gop m index vps ad ovd gvd avd p buf size g e ((h, fits, w), ws) es
      eb =
    let bytes : List ℕ = gop_bytes true p ad ovd gvd avd in
    let small = gop_bytes_small true m index vps ad ovd gvd avd p g h in
    let bare : after [] bytes buf ≡ (bytes, length bytes) =
      rw (drop_all (length bytes) buf (omega arith), append-nil bytes) in
    let whole = gop_bytes-stream_bytes p ad ovd gvd avd in
    let short : length (stream_bytes (gop_samples p ad ovd gvd avd)) + 2 ^ 27 < 2 ^ 64 =
      omega (arith, ap (length {A = ℕ}) whole) in
    (
      bytes,
      rw es (
          reconstruct_v3c_gop_lem true m index vps ad ovd gvd avd p [] buf g e h (omega arith)
            (omega arith)
          ∙ ap (λ o. ok (length bytes, o)) bare),
      rw (es, whole)
          (mmap_v3c_file-stream (gop_samples p ad ovd gvd avd) 64 empty_file_map ((h, fits, w), ws)
            (omega arith) (omega arith) short),
    )
