-- ===== src/Tests/Senders.antt =====
-- The theorems on the senders of whole files and on the receivers' totals, applied to small inputs.
use rtp_benchmarks.Common.{
  Bool, true, false, zero, suc, ◌+◌, ◌-◌, ◌≤◌, ℕ, ◌≡◌, refl, true, List, [], ◌∷◌, ◌++◌, none, some,
  ok, map, arith, length, All, take, drop, inl,
}
use rtp_benchmarks.V3c.Samples.{samples, samples-IsWellFormed, length-stream_bytes-samples}
use rtp_benchmarks.V3c.Types.{v3c_ad}
use rtp_benchmarks.V3c.Mmap.Stream.{stream_bytes}
use rtp_benchmarks.V3c.Write.Units.{block_of}
use rtp_benchmarks.Util.Files.{concat}
use rtp_benchmarks.Util.FrameStart.{get_next_frame_start, frame_loop, frame_step}
use rtp_benchmarks.Uvgrtp.Sender.{Event}
use rtp_benchmarks.Uvgrtp.Sender.Sends.{pushed}
use rtp_benchmarks.Uvgrtp.VpccSender.Places.{all_nals_of}
use rtp_benchmarks.Uvgrtp.VpccReceiver
use rtp_benchmarks.Uvgrtp.VpccReceiver.{a_frame}
use rtp_benchmarks.Uvgrtp.VpccReceiver.Rounds.{
  Origin, from_ad, from_gvd, AllResults, no_frames, receive_loop, total_results,
}
use rtp_benchmarks.Uvgrtp.VpccReceiver.Totals.{all_frames, all_bytes, receive_loop-total_results}
use rtp_benchmarks.Uvgrtp.SenderMain.{Answers, Thread, send_chunks, send_atlas}
use rtp_benchmarks.Uvgrtp.SenderMain.Delivers.{tiles, send_atlas-tiles}
use rtp_benchmarks.Uvgrtp.SenderMain.Threads.{HasSent, HavePorts, send_chunks-frames}
use rtp_benchmarks.Uvgrtp.LatencySender.Chunks.{up_to_refused}
use rtp_benchmarks.Uvgrtp.LatencySender.Runs.{latency_file, latency_atlas}
use rtp_benchmarks.Uvgrtp.LatencySender.Files.{latency_file-frames, code_of, latency_atlas-tiles}
use rtp_benchmarks.Live555.Framed.{
  FramedSource, max_write_size, split_into_nals, split_loop, cut_piece, send_frame,
}
use rtp_benchmarks.Live555.Framed.Parts.{send_frames, nal_bytes, send_frame-repeats}
use rtp_benchmarks.Live555.Framed.Chunks.{join, calls, send_frames-chunk}

abbrev answers : Answers
answers = record { push = λ n. true; now = λ n. 100 + n }

atlas_main_example :
    (events : List Event) × (send_atlas (some (64 ∷ stream_bytes samples)) answers 33333
      ≡ ok (0, events))
    × (pushed events ≡ tiles (map block_of (all_nals_of v3c_ad samples)))
atlas_main_example =
    send_atlas-tiles samples 64 answers 33333 (λ n. refl) samples-IsWellFormed (omega arith)
      (omega arith) (omega arith) (omega (arith, length-stream_bytes-samples))

abbrev refuse_second : ℕ → Bool
refuse_second zero = true
refuse_second (suc n) = false

abbrev ticks : ℕ → ℕ
ticks n = 1000 + n

atlas_latency_example :
    (events : List Event) × (latency_atlas refuse_second ticks ticks ticks 33333
        (some (64 ∷ stream_bytes samples))
      ≡ ok (
        code_of
            (up_to_refused refuse_second 0 (tiles (map block_of (all_nals_of v3c_ad samples)))).1,
        events,
      ))
    × (pushed events
        ≡ (up_to_refused refuse_second 0 (tiles (map block_of (all_nals_of v3c_ad samples)))).0)
atlas_latency_example =
    latency_atlas-tiles refuse_second ticks ticks ticks 33333 samples 64 samples-IsWellFormed
      (omega arith) (omega arith) (omega arith) (omega (arith, length-stream_bytes-samples))

abbrev two_frames : List (List ℕ)
two_frames = (1 ∷ 2 ∷ []) ∷ (3 ∷ []) ∷ []

latency_file_example :
    (events : List Event) × (latency_file refuse_second ticks ticks ticks 33333
        (some (concat two_frames ++ (7 ∷ [])))
        (map length two_frames)
      ≡ ok (code_of (up_to_refused refuse_second 0 two_frames).1, events))
    × (pushed events ≡ (up_to_refused refuse_second 0 two_frames).0)
latency_file_example =
    latency_file-frames refuse_second ticks ticks ticks 33333 two_frames (7 ∷ []) (omega arith)
      (omega arith) (omega arith)

threads_example :
    (threads : List Thread) × (send_chunks 8888 9999 33333
        (some (concat two_frames ++ (7 ∷ [])))
        (map length two_frames)
        (answers ∷ answers ∷ [])
      ≡ ok (0, threads))
    × All (HasSent two_frames) threads
    × HavePorts threads
    × (length threads ≡ 2)
threads_example =
    send_chunks-frames 8888 9999 (answers ∷ answers ∷ []) 33333 two_frames (7 ∷ []) (omega arith)
      (omega arith) (λ n. refl, (λ n. refl, record {})) (omega arith) (omega arith)

-- A file of two chunks, of which the first is being sent.
abbrev chunk_bytes : List ℕ
chunk_bytes = 5 ∷ 6 ∷ 7 ∷ []

abbrev in_chunk : FramedSource
in_chunk = record {
  len = 3;
  off = 0;
  chunks = (1, 2) ∷ [];
  total_size = 3;
  c_chunk = some (2, 0);
  nals = [];
  c_nal = some (2, 0);
  c_nal_off = 0;
  n_calls = 0;
}

split_second : split_into_nals chunk_bytes (1, 2) ≡ ok ((1, 2) ∷ [])
unfolding split_into_nals split_loop cut_piece get_next_frame_start frame_loop frame_step
split_second = refl

repeats_example :
    (part : List ℕ) × (t : FramedSource) × (u : FramedSource) × (send_frame chunk_bytes in_chunk
      ≡ ok (part, t))
    × (send_frame chunk_bytes t ≡ ok (part, u))
    × (part ≡ take (2 - 0) (drop (0 + 0) chunk_bytes))
    × (u.chunks ≡ [])
    × (u.nals ≡ (1, 2) ∷ [])
repeats_example =
    send_frame-repeats chunk_bytes (2, 0) (1, 2) [] ((1, 2) ∷ []) in_chunk
      (omega arith, ((2, 0), refl), refl, omega arith, omega arith, inl refl) (omega arith) refl
      refl split_second

abbrev split_chunk : FramedSource
split_chunk = record in_chunk { nals = (2, 0) ∷ (1, 2) ∷ []; c_nal = none }

parts_example :
    (parts : List (List ℕ)) × (t : FramedSource) × (send_frames
        (calls ((2, 0) ∷ (1, 2) ∷ []))
        chunk_bytes
        split_chunk
      ≡ ok (parts, t))
    × ((groups : List (List (List ℕ))) × (join groups ≡ parts)
        × (map concat groups ≡ map (nal_bytes chunk_bytes) ((2, 0) ∷ (1, 2) ∷ [])))
    × All (λ p. length p ≤ max_write_size) parts
    × (t.c_chunk ≡ none)
    × (t.nals ≡ [])
parts_example =
    send_frames-chunk chunk_bytes (2, 0) ((1, 2) ∷ []) split_chunk (omega arith) ((2, 0), refl) refl
      refl (omega arith)

abbrev busy : List (List (Origin × VpccReceiver.Call))
busy = ((from_ad, a_frame 5 100 6) ∷ (from_gvd, a_frame 8 50 9) ∷ []) ∷ []

totals_example :
    (r : AllResults) × (receive_loop (busy ++ ([] ∷ [])) no_frames true ≡ some r)
    × ((total_results r).0 ≡ all_bytes busy)
    × ((total_results r).1 ≡ all_frames busy)
totals_example =
    receive_loop-total_results busy [] [] (refl, record {}) refl (omega arith) (omega arith)
