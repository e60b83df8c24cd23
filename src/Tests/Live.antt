-- ===== src/Tests/Live.antt =====
-- The theorems on live555/ and ffmpeg/, applied to small inputs.
use rtp_benchmarks.Common.{
  ◌+◌, ℕ, ◌≡◌, ◌≢◌, refl, true, List, [], ◌∷◌, some, ok, map, arith, length,
}
use rtp_benchmarks.Uvgrtp.Sender.{pace}
use rtp_benchmarks.Live555.StartCode.{
  ff_avc_find_startcode, ff_avc_find_startcode_internal, byte_loop, is_code, word_loop, check_word,
  load_word, zero_bytes, check_half, or_half, next_word, scan_then, scan_end,
}
use rtp_benchmarks.Live555.StartCode.Finds.{first_code, ff_avc_find_startcode_internal-first_code}
use rtp_benchmarks.Util.Chunks.{to_bytes}
use rtp_benchmarks.Live555.Framed.{FramedSource, start_framed_source}
use rtp_benchmarks.Live555.Framed.Chunked.{
  chunk_file, chunk_total, piece_bytes, start_framed_source-chunk_file,
}
use rtp_benchmarks.Ffmpeg.LatencySender.{has_key}
use rtp_benchmarks.Ffmpeg.LatencySender.Packets.{firsts, pieces_at}
use rtp_benchmarks.Live555.Source.{
  SourceState, find_next_nal, open_file, skip_zeros, cut_nal, frame_sizes,
}
use rtp_benchmarks.Live555.LatencySender.{
  LatencyState, initial_state, size_mismatch, exited, returned, after_getting_frame,
  latency_deliver_frame, deliver_found, note_nal, lookup,
}
use rtp_benchmarks.Live555.LatencySender.Safe.{
  IsValid, Reachable, start, next, asks, Reachable-IsValid, after_getting_frame_matches,
}

-- Two NAL units behind start codes.
abbrev annexb : List ℕ
annexb = 0 ∷ 0 ∷ 1 ∷ 38 ∷ 7 ∷ 0 ∷ 0 ∷ 0 ∷ 1 ∷ 2 ∷ 9 ∷ []

start_code_example :
    ff_avc_find_startcode_internal 2 annexb 1 (length annexb)
    ≡ ok (first_code annexb 1 (length annexb))
start_code_example = ff_avc_find_startcode_internal-first_code 2 annexb 1 (omega arith)

abbrev opened : SourceState
opened = record { next_nal_start = some 0; current = 0; bytes = 0 }

-- The state behind the first NAL unit, which has two bytes.
abbrev noted : LatencyState
noted = record initial_state {
  next_nal_start = some 5;
  timestamps = (2, record { first = 1000; second = 2 }) ∷ [];
}

notes :
    latency_deliver_frame 2 annexb 50 true 10 1000 1500 initial_state
    ≡ ok (returned (some ([], 2, 0, 38 ∷ 7 ∷ [])) noted)
unfolding latency_deliver_frame find_next_nal open_file skip_zeros cut_nal ff_avc_find_startcode
    ff_avc_find_startcode_internal byte_loop is_code word_loop check_word load_word zero_bytes
    check_half or_half next_word scan_then scan_end deliver_found note_nal lookup frame_sizes pace
notes = refl

noted-Reachable : Reachable 2 annexb 50 noted
noted-Reachable = next start (asks true 10 1000 1500 (some ([], 2, 0, 38 ∷ 7 ∷ [])) notes)

reachable_example : IsValid noted
reachable_example = Reachable-IsValid 2 annexb 50 noted-Reachable

matches_example : after_getting_frame 2 38 3000 noted ≢ exited size_mismatch noted
matches_example = after_getting_frame_matches 2 annexb 50 2 38 3000 noted noted-Reachable

abbrev two_chunks : List (List ℕ)
two_chunks = (5 ∷ 6 ∷ 7 ∷ []) ∷ (8 ∷ []) ∷ []

chunk_file_example :
    (s : FramedSource) × (start_framed_source
        (chunk_file two_chunks)
        (length (chunk_file two_chunks))
      ≡ ok s)
    × (map (piece_bytes (chunk_file two_chunks)) s.chunks ≡ two_chunks)
    × (s.total_size ≡ chunk_total two_chunks)
unfolding to_bytes
chunk_file_example = start_framed_source-chunk_file two_chunks (omega arith) (omega arith)

abbrev ticks : ℕ → ℕ
ticks n = 100 + n

packets_cut : pieces_at annexb 0 (firsts (2 ∷ 2 ∷ 3 ∷ [])) ≡ (0 ∷ 0 ∷ []) ∷ (1 ∷ 38 ∷ 7 ∷ []) ∷ []
unfolding has_key
packets_cut = refl
