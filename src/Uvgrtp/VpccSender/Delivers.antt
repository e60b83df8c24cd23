-- ===== src/Uvgrtp/VpccSender/Delivers.antt =====
-- `main` of uvgrtp/vpcc_sender.cc on a well formed sample stream.
use rtp_benchmarks.Common.{
  ℕ, ◌+◌, ◌^◌, ◌≤◌, ◌<◌, ◌≡◌, refl, ap, ◌∙◌, List, [], ◌∷◌, ◌++◌, map, some, ok, arith, All, length,
  length-append, add64,
}
use rtp_benchmarks.V3c.Types.{
  NalInfo, V3cUnitInfo, empty_file_map, v3c_ad, v3c_ovd, v3c_gvd, v3c_avd,
}
use rtp_benchmarks.V3c.Bytes.RoundTrip.{big_endian}
use rtp_benchmarks.V3c.Header.RoundTrip.{header_bytes}
use rtp_benchmarks.V3c.Mmap.Stream.{
  Sample, parameter_set, unit, sample_bytes, stream_bytes, IsWellFormed, file_samples,
  mmap_v3c_file-file_samples,
}
use rtp_benchmarks.V3c.Write.Units.{
  IsHeld, block_of, nals_bytes, precision_bytes, unit_body, unit_bytes, total_size,
  total_size-append,
}
use rtp_benchmarks.Uvgrtp.Sender.{Event}
use rtp_benchmarks.Uvgrtp.Sender.Sends.{pushed}
use rtp_benchmarks.Uvgrtp.VpccSender.{sender_func}
use rtp_benchmarks.Uvgrtp.VpccSender.Sends.{all_nals, sender_func-pushed}
use rtp_benchmarks.Uvgrtp.VpccSender.Streams.{Clock, Clocks, Sent, time_diff, send_streams, main}
use rtp_benchmarks.Uvgrtp.VpccSender.Places.{
  units_of, IsSentType, nals_of, all_nals_of, HasByte, Hold, file_samples-Hold,
}

nals_bytes-total :
    (n : ℕ) (nals : List NalInfo) → All IsHeld nals → total_size nals ≤ length (nals_bytes n nals)
unfolding nals_bytes
nals_bytes-total n [] a = omega arith
nals_bytes-total n (i ∷ is) ((e, l, small), a) = omega (
  arith,
  length-append {0} (big_endian n i.size) (block_of i ++ nals_bytes n is),
  length-append {0} (block_of i) (nals_bytes n is),
  nals_bytes-total n is a,
)

-- How many bytes the four threads have to send.
abbrev pub four_totals : List NalInfo → List NalInfo → List NalInfo → List NalInfo → ℕ
four_totals a o g v = total_size a + total_size o + total_size g + total_size v

abbrev sample_total : Sample → ℕ
sample_total s =
    four_totals (nals_of v3c_ad s) (nals_of v3c_ovd s) (nals_of v3c_gvd s) (nals_of v3c_avd s)

abbrev pub stream_total : List Sample → ℕ
stream_total ss =
    four_totals (all_nals_of v3c_ad ss) (all_nals_of v3c_ovd ss) (all_nals_of v3c_gvd ss)
      (all_nals_of v3c_avd ss)

sample_total_le : (s : Sample) → IsWellFormed s → sample_total s ≤ length (sample_bytes s)
unfolding sample_bytes unit_bytes unit_body
sample_total_le (parameter_set p) w = omega arith
sample_total_le (unit n u) w =
    let t = u.header.vuh_unit_type in
    let nals = nals_bytes n u.nal_infos in
    let size = length (unit_body n u) in
    let l1 = length-append {0} (big_endian 3 size) (unit_body n u) in
    let l2 = length-append {0} (header_bytes u.header.vuh) (precision_bytes t n ++ nals) in
    let l3 = length-append {0} (precision_bytes t n) nals in
    let l4 = nals_bytes-total n u.nal_infos w.complete.held in
    let one : sample_total (unit n u) ≤ total_size u.nal_infos = ground arith in omega arith

pub stream_total_le :
    (ss : List Sample) → All IsWellFormed ss → stream_total ss ≤ length (stream_bytes ss)
unfolding stream_bytes
stream_total_le [] w = omega arith
stream_total_le (s ∷ ss) (w, ws) = omega (
  arith,
  length-append {0} (sample_bytes s) (stream_bytes ss),
  sample_total_le s w,
  stream_total_le ss ws,
  total_size-append (nals_of v3c_ad s) (all_nals_of v3c_ad ss),
  total_size-append (nals_of v3c_ovd s) (all_nals_of v3c_ovd ss),
  total_size-append (nals_of v3c_gvd s) (all_nals_of v3c_gvd ss),
  total_size-append (nals_of v3c_avd s) (all_nals_of v3c_avd ss),
)

pub length_le_total : (nals : List NalInfo) → All HasByte nals → length nals ≤ total_size nals
length_le_total [] a = omega arith
length_le_total (i ∷ is) (h, a) = omega (arith, length_le_total is a)

-- The thread of a type pushes the NAL units of its type, and counts their bytes.
abbrev Pushes : List ℕ → ℕ → Clock → ℕ → List V3cUnitInfo → List NalInfo → Type 0
Pushes cbuf t clock period units nals =
    (events : List Event) × (sender_func cbuf t clock.now period units
      ≡ ok (events, total_size nals))
    × (pushed events ≡ map block_of nals)

thread-Pushes :
    (ss : List Sample) (b t : ℕ) (clock : Clock) (period : ℕ)
    → IsSentType t
    → All IsWellFormed ss
    → All HasByte (all_nals_of t ss)
    → total_size (all_nals_of t ss) < 2 ^ 64
    → Pushes
        (b ∷ stream_bytes ss)
        t
        clock
        period
        (units_of t (file_samples 1 ss empty_file_map))
        (all_nals_of t ss)
thread-Pushes ss b t clock period sent w h small =
    let units = units_of t (file_samples 1 ss empty_file_map) in
    let (inside, bytes, total, count, nonempty) =
      file_samples-Hold (b ∷ stream_bytes ss) t 1 ss empty_file_map [] sent w h refl empty in
    let few = length_le_total (all_nals_of t ss) h in
    let (events, runs, pushes) =
      sender_func-pushed (b ∷ stream_bytes ss) t clock.now period units inside (omega arith)
        (omega arith) in
    (events, runs ∙ ap (λ k. ok (events, k)) total, pushes ∙ bytes)
  where
    empty : Hold (b ∷ stream_bytes ss) (all_nals (units_of t empty_file_map)) []
    empty =
        let none_yet : units_of t empty_file_map ≡ [] = ground arith in
        rw none_yet (record {}, refl, refl, refl, record {})

-- Each NAL unit that is sent has a byte.
abbrev pub HaveBytes : List Sample → Type 0
HaveBytes ss =
    All HasByte (all_nals_of v3c_ad ss)
    × All HasByte (all_nals_of v3c_ovd ss)
    × All HasByte (all_nals_of v3c_gvd ss)
    × All HasByte (all_nals_of v3c_avd ss)

-- On a file that is a first byte for three-byte sizes and then well formed samples, in which each NAL
-- unit of the four types has a byte, the program reads the whole file, ends with the code 0, and each
-- thread pushes the bytes of the NAL units of its type in the order of the file, whatever the clocks
-- show; the total that is written is the sum of their sizes.
pub main-stream :
    (ss : List Sample) (b : ℕ) (c : Clocks) (period : ℕ)
    → All IsWellFormed ss
    → HaveBytes ss
    → 64 ≤ b
    → b < 96
    → length (stream_bytes ss) + 2 ^ 27 < 2 ^ 64
    → (sent : Sent) × (main (some (b ∷ stream_bytes ss)) c period ≡ ok (0, some sent))
      × (pushed sent.ad_events ≡ map block_of (all_nals_of v3c_ad ss))
      × (pushed sent.ovd_events ≡ map block_of (all_nals_of v3c_ovd ss))
      × (pushed sent.gvd_events ≡ map block_of (all_nals_of v3c_gvd ss))
      × (pushed sent.avd_events ≡ map block_of (all_nals_of v3c_avd ss))
      × (sent.total_bytes_sent ≡ stream_total ss)
unfolding main send_streams
main-stream ss b c period w (h1, h2, h3, h4) lo hi small =
    let bound = stream_total_le ss w in
    let parses = mmap_v3c_file-file_samples ss b empty_file_map w lo hi small in
    let (e1, r1, p1) =
      thread-Pushes ss b v3c_ad c.ad_clock period (omega arith) w h1 (omega arith) in
    let (e2, r2, p2) =
      thread-Pushes ss b v3c_ovd c.ovd_clock period (omega arith) w h2 (omega arith) in
    let (e3, r3, p3) =
      thread-Pushes ss b v3c_gvd c.gvd_clock period (omega arith) w h3 (omega arith) in
    let (e4, r4, p4) =
      thread-Pushes ss b v3c_avd c.avd_clock period (omega arith) w h4 (omega arith) in
    (
      record {
        ad_events = e1;
        ovd_events = e2;
        gvd_events = e3;
        avd_events = e4;
        total_bytes_sent =
            add64
              (add64
                (add64 (total_size (all_nals_of v3c_ad ss)) (total_size (all_nals_of v3c_ovd ss)))
                (total_size (all_nals_of v3c_gvd ss)))
              (total_size (all_nals_of v3c_avd ss));
        diff = time_diff c;
      },
      rw (parses, r1, r2, r3, r4) refl,
      p1,
      p2,
      p3,
      p4,
      omega arith,
    )
