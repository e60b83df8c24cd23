-- ===== src/Uvgrtp/VpccSender/Places.antt =====
-- The NAL units that `mmap_v3c_file` files lie in the file, with their bytes.
use rtp_benchmarks.Common.{
  ℕ, ◌+◌, ◌≤◌, ◌≡◌, refl, sym, ap, ◌∙◌, List, [], ◌∷◌, ◌++◌, append-nil, append_assoc, map, arith,
  All, All-append, All-split, length, length-append, map-append, take, drop, length-drop,
  take-append_left, ◌==◌, if◌then◌else◌, Bool-cases, inl, inr,
}
use rtp_benchmarks.V3c.Types.{NalInfo, V3cUnitInfo, V3cFileMap, v3c_ad, v3c_ovd, v3c_gvd}
use rtp_benchmarks.V3c.Bytes.RoundTrip.{big_endian, length-big_endian}
use rtp_benchmarks.V3c.Header.RoundTrip.{header_bytes, length-header_bytes}
use rtp_benchmarks.V3c.Mmap.{file_unit}
use rtp_benchmarks.V3c.Mmap.Parses.{drop_past, located, nals_at, IsSample}
use rtp_benchmarks.V3c.Mmap.Stream.{
  Sample, parameter_set, unit, sample_bytes, stream_bytes, IsWellFormed, entry, file_sample,
  file_samples,
}
use rtp_benchmarks.V3c.Write.Units.{
  IsHeld, block_of, nals_bytes, precision_bytes, length-precision_bytes, unit_body, unit_bytes,
  total_size, total_size-append,
}
use rtp_benchmarks.Uvgrtp.VpccSender.Sends.{IsInside, slice, all_nals}

-- The units that a thread of this type sends.
abbrev pub units_of : ℕ → V3cFileMap → List V3cUnitInfo
units_of t m =
    if t == v3c_ad
    then m.ad_units
    else if t == v3c_ovd
    then m.ovd_units
    else if t == v3c_gvd
    then m.gvd_units
    else m.avd_units

-- A type that has a thread.
abbrev pub IsSentType : ℕ → Type 0
IsSentType t = (1 ≤ t) × (t ≤ 4)

-- The NAL units of a type in a sample stream, in order.
abbrev pub nals_of : ℕ → Sample → List NalInfo
nals_of t (parameter_set p) = []
nals_of t (unit n u) = if u.header.vuh_unit_type == t then u.nal_infos else []

abbrev pub all_nals_of : ℕ → List Sample → List NalInfo
all_nals_of t [] = []
all_nals_of t (s ∷ ss) = nals_of t s ++ all_nals_of t ss

abbrev pub HasByte : NalInfo → Type 0
HasByte i = 1 ≤ i.size

-- These places in the file hold the bytes of these NAL units.
abbrev pub Hold : List ℕ → List NalInfo → List NalInfo → Type 0
Hold cbuf places nals =
    All (IsInside cbuf) places
    × (map (slice cbuf) places ≡ map block_of nals)
    × (total_size places ≡ total_size nals)
    × (length places ≡ length nals)
    × All HasByte places

pub Hold-append :
    (cbuf : List ℕ) (ps qs xs ys : List NalInfo)
    → Hold cbuf ps xs
    → Hold cbuf qs ys
    → Hold cbuf (ps ++ qs) (xs ++ ys)
Hold-append cbuf ps qs xs ys (a, b, c, d, h) (a', b', c', d', h') = (
  All-append (IsInside cbuf) ps qs a a',
  map-append (slice cbuf) ps qs ∙ rw (b, b') (sym (map-append block_of xs ys)),
  omega (arith, total_size-append ps qs, total_size-append xs ys),
  omega (arith, length-append {0} ps qs, length-append {0} xs ys),
  All-append HasByte ps qs h h',
)

located-Hold :
    (cbuf : List ℕ) (n p : ℕ) (nals : List NalInfo) (rest : List ℕ)
    → All IsHeld nals
    → All HasByte nals
    → drop p cbuf ≡ nals_bytes n nals ++ rest
    → Hold cbuf (located n p nals) nals
unfolding located nals_bytes
located-Hold cbuf n p [] rest a h d = (record {}, refl, refl, refl, record {})
located-Hold cbuf n p (i ∷ is) rest ((e, l, small), a) (b, h) d =
    let field : drop p cbuf ≡ big_endian n i.size ++ (block_of i ++ (nals_bytes n is ++ rest)) =
      d ∙ simp append_assoc in
    let at_block =
      drop_past p (p + n) cbuf (big_endian n i.size) (block_of i ++ (nals_bytes n is ++ rest))
        (omega (arith, length-big_endian n i.size)) field in
    let at_next =
      drop_past (p + n) (p + n + i.size) cbuf (block_of i) (nals_bytes n is ++ rest) (omega arith)
        at_block in
    let (k0, k1, k2, k3, k4) = located-Hold cbuf n (p + n + i.size) is rest a h at_next in
    let total = ap length at_block in
    let inside = length-append {0} (block_of i) (nals_bytes n is ++ rest) in
    let bytes : take i.size (drop (p + n) cbuf) ≡ block_of i =
      ap (take i.size) at_block
      ∙ ap (λ k. take k (block_of i ++ (nals_bytes n is ++ rest))) (sym l)
      ∙ take-append_left (block_of i) (nals_bytes n is ++ rest) in
    (
      ((omega (arith, length-drop (p + n) cbuf), omega (arith, length-drop (p + n) cbuf)), k0),
      rw (bytes, k1) refl,
      omega arith,
      omega arith,
      (b, k4),
    )

-- The place of a unit's NAL units in the file, behind its size field, header and precision.
entry-Hold :
    (cbuf : List ℕ) (n p : ℕ) (u : V3cUnitInfo) (rest : List ℕ)
    → IsSample n u
    → All HasByte u.nal_infos
    → drop p cbuf ≡ unit_bytes n u ++ rest
    → Hold cbuf (entry n (p + 3) u).nal_infos u.nal_infos
unfolding entry unit_bytes unit_body
entry-Hold cbuf n p u rest s h d =
    let t = u.header.vuh_unit_type in
    let size = length (unit_body n u) in
    let nals = nals_bytes n u.nal_infos in
    let at_body =
      drop_past p (p + 3) cbuf (big_endian 3 size) (unit_body n u ++ rest)
        (omega (arith, length-big_endian 3 size)) (d ∙ simp append_assoc) in
    let at_precision =
      drop_past (p + 3) (p + 3 + 4) cbuf (header_bytes u.header.vuh)
        (precision_bytes t n ++ (nals ++ rest)) (omega (arith, length-header_bytes u.header.vuh))
        (at_body ∙ simp append_assoc) in
    let at_nals =
      drop_past (p + 3 + 4) (nals_at t (p + 3)) cbuf (precision_bytes t n) (nals ++ rest)
        (omega (arith, length-precision_bytes t n)) at_precision in
    located-Hold cbuf n (nals_at t (p + 3)) u.nal_infos rest s.complete.held h at_nals

all_nals-append : (us vs : List V3cUnitInfo) → all_nals (us ++ vs) ≡ all_nals us ++ all_nals vs
all_nals-append [] vs = refl
all_nals-append (u ∷ us) vs = ap (λ l. u.nal_infos ++ l) (all_nals-append us vs) ∙ simp append_assoc

-- Filing a unit adds to the units of its own type, and to no others that are sent.
file_unit-units_of :
    (t k : ℕ) (u : V3cUnitInfo) (m : V3cFileMap)
    → IsSentType t
    → units_of t (file_unit k u m) ≡ (if k == t then units_of t m ++ (u ∷ []) else units_of t m)
unfolding file_unit
file_unit-units_of t k u m (lo, hi) = ground arith

-- The NAL units that are filed for a type are held by the file, before and behind a sample.
file_sample-Hold :
    (cbuf : List ℕ) (t p : ℕ) (s : Sample) (rest : List ℕ) (m : V3cFileMap) (nals : List NalInfo)
    → IsSentType t
    → IsWellFormed s
    → All HasByte (nals_of t s)
    → drop p cbuf ≡ sample_bytes s ++ rest
    → Hold cbuf (all_nals (units_of t m)) nals
    → Hold cbuf (all_nals (units_of t (file_sample p s m))) (nals ++ nals_of t s)
unfolding file_sample sample_bytes
file_sample-Hold cbuf t p (parameter_set q) rest m nals sent w h d k = rw append-nil k
file_sample-Hold cbuf t p (unit n u) rest m nals sent w h d k =
    let filed = file_unit-units_of t u.header.vuh_unit_type (entry n (p + 3) u) m sent in
    elim (Bool-cases (u.header.vuh_unit_type == t)) [
      | inr e ↦ rw (filed, e, append-nil) k
      | inl e ↦
          let h' : All HasByte u.nal_infos = rw e at h in
          let one = entry-Hold cbuf n p u rest w h' d in
          rw (filed, e, all_nals-append (units_of t m) (entry n (p + 3) u ∷ []), append-nil)
            (Hold-append cbuf (all_nals (units_of t m)) (entry n (p + 3) u).nal_infos nals
              u.nal_infos k one)
    ]

pub file_samples-Hold :
    (cbuf : List ℕ) (t p : ℕ) (ss : List Sample) (m : V3cFileMap) (nals : List NalInfo)
    → IsSentType t
    → All IsWellFormed ss
    → All HasByte (all_nals_of t ss)
    → drop p cbuf ≡ stream_bytes ss
    → Hold cbuf (all_nals (units_of t m)) nals
    → Hold cbuf (all_nals (units_of t (file_samples p ss m))) (nals ++ all_nals_of t ss)
unfolding file_samples stream_bytes
file_samples-Hold cbuf t p [] m nals sent w h d k = rw append-nil k
file_samples-Hold cbuf t p (s ∷ ss) m nals sent (w, ws) h d k =
    let (h0, h1) = All-split HasByte (nals_of t s) (all_nals_of t ss) h in
    let next = file_sample-Hold cbuf t p s (stream_bytes ss) m nals sent w h0 d k in
    let after =
      drop_past p (p + length (sample_bytes s)) cbuf (sample_bytes s) (stream_bytes ss) refl d in
    rw (sym (append_assoc nals (nals_of t s) (all_nals_of t ss))) (
      file_samples-Hold cbuf t (p + length (sample_bytes s)) ss (file_sample p s m)
        (nals ++ nals_of t s) sent ws h1 after next)
