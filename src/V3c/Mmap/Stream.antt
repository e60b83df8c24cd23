-- ===== src/V3c/Mmap/Stream.antt =====
-- `mmap_v3c_file` on a whole sample stream, and on what `reconstruct_v3c_gop` wrote.
use rtp_benchmarks.Common.{
  ℕ, zero, suc, ◌+◌, ◌/◌, ◌^◌, ◌≤◌, ◌<◌, ◌≡◌, refl, ap, ◌∙◌, true, false, List, [], ◌∷◌, ◌++◌,
  append_assoc, ok, none, arith, length, length-append, get_elem?-drop, drop, All, add64, ◌==◌,
  le→leb, lt→leb_false, u8, if◌then◌else◌, append-nil,
}
use rtp_benchmarks.V3c.Masks
use rtp_benchmarks.V3c.Types.{
  Vuh, ad, ovd, gvd, avd, pvd, cad, NalInfo, V3cUnitInfo, V3cFileMap, blank_header, v3c_vps,
}
use rtp_benchmarks.V3c.Bytes.RoundTrip.{big_endian, length-big_endian}
use rtp_benchmarks.V3c.Header.{parse_v3c_header}
use rtp_benchmarks.V3c.Header.RoundTrip.{
  IsStored, header_bytes, parse-header_bytes, length-header_bytes, read_back,
}
use rtp_benchmarks.V3c.Mmap.{
  done, nal_at, file_unit, mapped_unit, parse_payload, parse_unit, unit_loop, mmap_v3c_file,
}
use rtp_benchmarks.V3c.Mmap.Reads.{read_v3c_size-big_endian}
use rtp_benchmarks.V3c.Mmap.Parses.{
  drop_past, located, nal_loop-located, length-nals_le, nals_at, IsSample, nal_start-lem,
}
use rtp_benchmarks.V3c.Write.Units.{
  IsHeld, block_of, nals_bytes, precision_bytes, length-precision_bytes, unit_body, unit_bytes,
}

-- The entry of the map for a unit behind whose size field the file continues at `ptr`.
unfoldable pub entry : ℕ → ℕ → V3cUnitInfo → V3cUnitInfo
entry n ptr u = record {
  header = record { vuh_unit_type = u.header.vuh_unit_type; vuh = read_back u.header.vuh };
  nal_infos = located n (nals_at u.header.vuh_unit_type ptr) u.nal_infos;
  ptr = 0;
  ready = false;
}

stored-ne-vps : (t : ℕ) (v : Vuh) → IsStored t v → (t == v3c_vps) ≡ false
stored-ne-vps t (ad h) s = ground arith
stored-ne-vps t (ovd h) s = ground arith
stored-ne-vps t (gvd h) s = ground arith
stored-ne-vps t (avd h) s = ground arith
stored-ne-vps t (pvd h) s = ground arith
stored-ne-vps t (cad p) s = ground arith

module _ (cbuf : List ℕ) (n : ℕ) (u : V3cUnitInfo) (m : V3cFileMap) (s : IsSample n u) where
  parse_unit-entry :
      (ptr : ℕ) (rest : List ℕ)
      → ptr + 2 ^ 25 < 2 ^ 64
      → drop ptr cbuf ≡ unit_body n u ++ rest
      → parse_unit cbuf ptr (length (unit_body n u)) m
        ≡ ok (done (file_unit u.header.vuh_unit_type (entry n ptr u) m))
  unfolding parse_unit parse_payload unit_body entry
  parse_unit-entry ptr rest h d =
      let t : ℕ = u.header.vuh_unit_type in
      let nals : List ℕ = nals_bytes n u.nal_infos in
      let body : ℕ = length (unit_body n u) in
      let fits = s.complete.fits in
      let field : drop ptr cbuf
          ≡ header_bytes u.header.vuh ++ (precision_bytes t n ++ (nals ++ rest)) =
        d ∙ simp append_assoc in
      let at_precision : drop (ptr + 4) cbuf ≡ precision_bytes t n ++ (nals ++ rest) =
        drop_past ptr (ptr + 4) cbuf (header_bytes u.header.vuh)
          (precision_bytes t n ++ (nals ++ rest)) (omega (arith, length-header_bytes u.header.vuh))
          field in
      let at_nals : drop (nals_at t ptr) cbuf ≡ nals ++ rest =
        drop_past (ptr + 4) (nals_at t ptr) cbuf (precision_bytes t n) (nals ++ rest)
          (omega (arith, length-precision_bytes t n)) at_precision in
      let l1 = length-append {0} (header_bytes u.header.vuh) (precision_bytes t n ++ nals) in
      let l2 = length-append {0} (precision_bytes t n) nals in
      let l3 = length-header_bytes u.header.vuh in
      let l4 = length-precision_bytes t n in
      rw
        (
          parse-header_bytes (blank_header 0) cbuf ptr t u.header.vuh
              (precision_bytes t n ++ (nals ++ rest)) s.complete.stored (omega arith) field,
          stored-ne-vps t u.header.vuh s.complete.stored,
          nal_start-lem cbuf t n ptr (nals ++ rest) s.precision (omega arith) at_precision,
          nal_loop-located cbuf n (add64 ptr body) s.precision.0 s.precision.1 u.nal_infos
              (suc body) (nals_at t ptr) [] rest s.complete.held s.widths
              (omega (arith, length-nals_le n u.nal_infos s.precision.0)) (omega arith)
              (omega arith) at_nals,
        )
        refl

-- A sample stream: parameter sets, and units with the width of their NAL sizes.
pub data Sample : Type 0 where
  parameter_set : NalInfo → Sample
  unit : ℕ → V3cUnitInfo → Sample

unfoldable pub sample_bytes : Sample → List ℕ
sample_bytes (parameter_set p) = big_endian 3 p.size ++ block_of p
sample_bytes (unit n u) = unit_bytes n u

unfoldable pub stream_bytes : List Sample → List ℕ
stream_bytes [] = []
stream_bytes (s ∷ ss) = sample_bytes s ++ stream_bytes ss

-- A parameter set is a block whose first five bits are its type, 0.
abbrev pub IsWellFormed : Sample → Type 0
IsWellFormed (parameter_set p) =
    IsHeld p × (p.size < 2 ^ 24) × ((b : ℕ) × (bs : List ℕ) × (block_of p ≡ b ∷ bs) × (b < 8))
IsWellFormed (unit n u) = IsSample n u

-- The map with the sample filed that stands at `p`.
unfoldable pub file_sample : ℕ → Sample → V3cFileMap → V3cFileMap
file_sample p (parameter_set q) m = record m {
  vps_units = m.vps_units ++ (mapped_unit (blank_header 0) (nal_at (p + 3) q.size ∷ []) ∷ []);
}
file_sample p (unit n u) m = file_unit u.header.vuh_unit_type (entry n (p + 3) u) m

unfoldable pub file_samples : ℕ → List Sample → V3cFileMap → V3cFileMap
file_samples p [] m = m
file_samples p (s ∷ ss) m = file_samples (p + length (sample_bytes s)) ss (file_sample p s m)

parse_parameter_set :
    (cbuf : List ℕ) (ptr size b : ℕ) (rest : List ℕ) (m : V3cFileMap)
    → b < 8
    → drop ptr cbuf ≡ b ∷ rest
    → parse_unit cbuf ptr size m
      ≡ ok (
          done (record m {
            vps_units = m.vps_units ++ (mapped_unit (blank_header 0) (nal_at ptr size ∷ []) ∷ []);
          }))
unfolding parse_unit parse_payload parse_v3c_header
parse_parameter_set cbuf ptr size b rest m h d =
    ground (arith, get_elem?-drop ptr 0 ptr cbuf (omega arith), Masks.top_five b)

-- One round of the loop over the units.
unit_loop_step :
    (fuel : ℕ) (cbuf : List ℕ) (len p : ℕ) (s : Sample) (rest : List ℕ) (m : V3cFileMap)
    → IsWellFormed s
    → p < len
    → p + 2 ^ 26 < 2 ^ 64
    → drop p cbuf ≡ sample_bytes s ++ rest
    → unit_loop (suc fuel) cbuf len 3 p m
      ≡ unit_loop fuel cbuf len 3 (p + length (sample_bytes s)) (file_sample p s m)
unfolding unit_loop sample_bytes file_sample
unit_loop_step fuel cbuf len p (parameter_set q) rest m ((e, l, small), fits, (b, bs, eb, hb))
      before h d =
    let field : drop p cbuf ≡ big_endian 3 q.size ++ (block_of q ++ rest) = d ∙ simp append_assoc in
    let at_block : add64 p 3 ≡ p + 3 = omega arith in
    let at_next : add64 (p + 3) q.size ≡ p + length (big_endian 3 q.size ++ block_of q) =
      omega
        (arith, length-append {0} (big_endian 3 q.size) (block_of q), length-big_endian 3 q.size) in
    let here : drop (p + 3) cbuf ≡ b ∷ (bs ++ rest) =
      drop_past p (p + 3) cbuf (big_endian 3 q.size) (block_of q ++ rest)
        (omega (arith, length-big_endian 3 q.size)) field
      ∙ rw eb refl in
    rw
      (
        lt→leb_false len p before,
        read_v3c_size-big_endian cbuf p q.size (block_of q ++ rest) fits field,
        at_block,
        parse_parameter_set cbuf (p + 3) q.size b (bs ++ rest) m hb here,
        at_next,
      )
      refl
unit_loop_step fuel cbuf len p (unit n u) rest m s before h d =
    let size : ℕ = length (unit_body n u) in
    let fits = s.complete.fits in
    let field : drop p cbuf ≡ big_endian 3 size ++ (unit_body n u ++ rest) =
      d ∙ unfold unit_bytes in simp append_assoc in
    let at_body : add64 p 3 ≡ p + 3 = omega arith in
    let whole : length (unit_bytes n u) ≡ 3 + size =
      unfold unit_bytes in
      omega
        (arith, length-append {0} (big_endian 3 size) (unit_body n u), length-big_endian 3 size) in
    let at_next : add64 (p + 3) size ≡ p + length (unit_bytes n u) = omega arith in
    let here : drop (p + 3) cbuf ≡ unit_body n u ++ rest =
      drop_past p (p + 3) cbuf (big_endian 3 size) (unit_body n u ++ rest)
        (omega (arith, length-big_endian 3 size)) field in
    rw
      (
        lt→leb_false len p before,
        read_v3c_size-big_endian cbuf p size (unit_body n u ++ rest) fits field,
        at_body,
        parse_unit-entry cbuf n u m s (p + 3) rest (omega arith) here,
        at_next,
      )
      refl

-- A sample takes at least its size field.
length-sample_bytes : (s : Sample) → 3 ≤ length (sample_bytes s)
unfolding sample_bytes unit_bytes
length-sample_bytes (parameter_set q) =
    omega (arith, length-append {0} (big_endian 3 q.size) (block_of q), length-big_endian 3 q.size)
length-sample_bytes (unit n u) = omega (
  arith,
  length-append {0} (big_endian 3 (length (unit_body n u))) (unit_body n u),
  length-big_endian 3 (length (unit_body n u)),
)

unit_loop-file_samples :
    (ss : List Sample) (fuel : ℕ) (cbuf : List ℕ) (len p : ℕ) (m : V3cFileMap)
    → All IsWellFormed ss
    → length (stream_bytes ss) < fuel
    → len ≡ p + length (stream_bytes ss)
    → len + 2 ^ 26 < 2 ^ 64
    → drop p cbuf ≡ stream_bytes ss
    → unit_loop fuel cbuf len 3 p m ≡ ok (true, file_samples p ss m)
unfolding stream_bytes file_samples
unit_loop-file_samples ss zero cbuf len p m w hf e b d = absurd (omega arith)
unit_loop-file_samples [] (suc fuel) cbuf len p m w hf e b d =
    unfold unit_loop in rw (le→leb len p (omega arith))
unit_loop-file_samples (s ∷ ss) (suc fuel) cbuf len p m (w, ws) hf e b d =
    let l = length-append {0} (sample_bytes s) (stream_bytes ss) in
    let k = length-sample_bytes s in
    unit_loop_step fuel cbuf len p s (stream_bytes ss) m w (omega arith) (omega arith) d
    ∙ unit_loop-file_samples ss fuel cbuf len (p + length (sample_bytes s)) (file_sample p s m) ws
        (omega arith) (omega arith) b
        (drop_past p (p + length (sample_bytes s)) cbuf (sample_bytes s) (stream_bytes ss) refl d)

-- The type of a sample, 0 for a parameter set, and its entry when it stands at `p`.
abbrev pub type_of : Sample → ℕ
type_of (parameter_set q) = 0
type_of (unit n u) = u.header.vuh_unit_type

abbrev pub entry_at : ℕ → Sample → V3cUnitInfo
entry_at p (parameter_set q) = record {
  header = blank_header 0;
  nal_infos = record { location = p + 3; size = q.size; buf = none } ∷ [];
  ptr = 0;
  ready = false;
}
entry_at p (unit n u) = entry n (p + 3) u

abbrev if_type : ℕ → ℕ → V3cUnitInfo → List V3cUnitInfo → List V3cUnitInfo
if_type k t e rest = if t == k then e ∷ rest else rest

-- The entries of the samples of one type, in order.
abbrev pub entries : ℕ → ℕ → List Sample → List V3cUnitInfo
entries k p [] = []
entries k p (s ∷ ss) =
    if type_of s == k
    then entry_at p s ∷ entries k (p + length (sample_bytes s)) ss
    else entries k (p + length (sample_bytes s)) ss

-- The lists of the map, each with the entries of its own type behind it.
abbrev pub sorted : ℕ → List Sample → V3cFileMap → V3cFileMap
sorted p ss m = record {
  vps_units = m.vps_units ++ entries 0 p ss;
  ad_units = m.ad_units ++ entries 1 p ss;
  ovd_units = m.ovd_units ++ entries 2 p ss;
  gvd_units = m.gvd_units ++ entries 3 p ss;
  avd_units = m.avd_units ++ entries 4 p ss;
  pvd_units = m.pvd_units ++ entries 5 p ss;
  cad_units = m.cad_units ++ entries 6 p ss;
}

abbrev Extra : Type 0
Extra = ℕ → List V3cUnitInfo

abbrev extend : V3cFileMap → Extra → V3cFileMap
extend m x = record {
  vps_units = m.vps_units ++ x 0;
  ad_units = m.ad_units ++ x 1;
  ovd_units = m.ovd_units ++ x 2;
  gvd_units = m.gvd_units ++ x 3;
  avd_units = m.avd_units ++ x 4;
  pvd_units = m.pvd_units ++ x 5;
  cad_units = m.cad_units ++ x 6;
}

extend-file_unit :
    (t : ℕ) (v : Vuh) (e : V3cUnitInfo) (m : V3cFileMap) (x : Extra)
    → IsStored t v
    → extend (file_unit t e m) x ≡ extend m (λ k. if_type k t e (x k))
unfolding file_unit
extend-file_unit t (ad h) e m x s = rw (s.0) (simp append_assoc)
extend-file_unit t (ovd h) e m x s = rw (s.0) (simp append_assoc)
extend-file_unit t (gvd h) e m x s = rw (s.0) (simp append_assoc)
extend-file_unit t (avd h) e m x s = rw (s.0) (simp append_assoc)
extend-file_unit t (pvd h) e m x s = rw (s.0) (simp append_assoc)
extend-file_unit t (cad p) e m x s = rw (s.0) (simp append_assoc)

file_samples-sorted :
    (p : ℕ) (ss : List Sample) (m : V3cFileMap)
    → All IsWellFormed ss
    → file_samples p ss m ≡ sorted p ss m
unfolding file_samples file_sample
file_samples-sorted p [] m w = simp append-nil
file_samples-sorted p (parameter_set q ∷ ss) m (h, w) =
    file_samples-sorted (p + length (sample_bytes (parameter_set q))) ss
      (file_sample p (parameter_set q) m) w
    ∙ simp append_assoc
file_samples-sorted p (unit n u ∷ ss) m (h, w) =
    let next = p + length (sample_bytes (unit n u)) in
    file_samples-sorted next ss (file_sample p (unit n u) m) w
    ∙ extend-file_unit u.header.vuh_unit_type u.header.vuh (entry n (p + 3) u) m
        (λ k. entries k next ss) h.complete.stored

pub mmap_v3c_file-file_samples :
    (ss : List Sample) (b : ℕ) (m : V3cFileMap)
    → All IsWellFormed ss
    → 64 ≤ b
    → b < 96
    → length (stream_bytes ss) + 2 ^ 27 < 2 ^ 64
    → mmap_v3c_file (b ∷ stream_bytes ss) (suc (length (stream_bytes ss))) m
      ≡ ok (true, file_samples 1 ss m)
unfolding mmap_v3c_file
mmap_v3c_file-file_samples ss b m w lo hi h =
    let precision : u8 (b / 2 ^ 5 + 1) ≡ 3 = omega arith in
    rw precision (
      unit_loop-file_samples ss _ (b ∷ stream_bytes ss) (suc (length (stream_bytes ss))) 1 m w
        (omega arith) (omega arith) (omega arith) refl)

-- On a file that is a first byte for three-byte sizes and then well formed samples (parameter sets
-- below 2 ^ 24 bytes, and units below 2 ^ 24 bytes whose header fields fit the format and whose NAL
-- sizes fit their width), the parser answers `true`, and each list of the map gets, in order, the
-- entries of the samples of its own type: each with its header, up to `read_back`, and with the place
-- and the size of each of its NAL units.
pub mmap_v3c_file-stream :
    (ss : List Sample) (b : ℕ) (m : V3cFileMap)
    → All IsWellFormed ss
    → 64 ≤ b
    → b < 96
    → length (stream_bytes ss) + 2 ^ 27 < 2 ^ 64
    → mmap_v3c_file (b ∷ stream_bytes ss) (suc (length (stream_bytes ss))) m
      ≡ ok (true, sorted 1 ss m)
mmap_v3c_file-stream ss b m w lo hi h =
    mmap_v3c_file-file_samples ss b m w lo hi h
    ∙ ap (λ n. ok (true, n)) (file_samples-sorted 1 ss m w)
