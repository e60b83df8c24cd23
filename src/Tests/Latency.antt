-- ===== src/Tests/Latency.antt =====
-- The theorems on the latency benchmarks and the receivers of uvgrtp/, applied to small inputs.
use rtp_benchmarks.Common.{
  ℕ, zero, suc, ◌+◌, ◌≡◌, refl, Bool, true, false, List, [], ◌∷◌, ◌++◌, none, some, map, ok, arith,
  length, replicate, ◌⊎◌, ◌≢◌,
}
use rtp_benchmarks.V3c.Types.{NalInfo, V3cUnitInfo}
use rtp_benchmarks.V3c.Receive.{new_unit, numbered_header}
use rtp_benchmarks.Util.Files.{concat}
use rtp_benchmarks.Uvgrtp.Sender.{Event}
use rtp_benchmarks.Uvgrtp.Sender.Sends.{pushed}
use rtp_benchmarks.Uvgrtp.VpccSender.Sends.{slice, all_nals, frame_nals}
use rtp_benchmarks.Uvgrtp.VpccLatencySender.{StreamTimes, latency_sender_func, receive_all}
use rtp_benchmarks.Uvgrtp.VpccLatencySender.Sends.{times_from, latency_sender_func-pushed}
use rtp_benchmarks.Uvgrtp.VpccLatencySender.Returns.{receive_all-latency_sender_func}
use rtp_benchmarks.Uvgrtp.LatencySender.{Arrival, AtlasState, latency_chunks, latency_atlas_units}
use rtp_benchmarks.Uvgrtp.LatencySender.Chunks.{up_to_refused, Does, latency_chunks-pushed}
use rtp_benchmarks.Uvgrtp.LatencySender.Atlas.{IsSent, latency_atlas_units-IsSent}
use rtp_benchmarks.Uvgrtp.AtlasSender.Sends.{kept_nals}
use rtp_benchmarks.Uvgrtp.Setup.{
  init_v3c_streams, rce_srtp, srtp_calls, fill_key, add_srtp_ctx, m_stream,
}
use rtp_benchmarks.Uvgrtp.Setup.Pairs.{
  own_ssrc, expected_ssrc, stream_number, init_v3c_streams-ssrc,
}
use rtp_benchmarks.Uvgrtp.Echo.{
  EchoState, initial_echo, receiver_loop, Stream, initial_vpcc_echo, vpcc_receiver_loop,
}
use rtp_benchmarks.Uvgrtp.Echo.Loops.{
  all_frames, receiver_loop-echoes, vpcc_total, vpcc_receiver_loop-echoes,
}
use rtp_benchmarks.Uvgrtp.Receiver.{Shared, no_info, receiver_hooks}
use rtp_benchmarks.Uvgrtp.Receiver.Counts.{frame_calls, after_frames, receiver_hooks-no_info}

abbrev nal_place : ℕ → ℕ → NalInfo
nal_place location size = record { location = location; size = size; buf = none }

-- A parameter set and two NAL units of an occupancy stream.
abbrev ovd_file : List ℕ
ovd_file = 64 ∷ 1 ∷ 2 ∷ 9 ∷ 4 ∷ []

abbrev ovd_list : List V3cUnitInfo
ovd_list =
    record (new_unit (numbered_header 2 0)) {
      nal_infos = nal_place 0 2 ∷ nal_place 2 1 ∷ nal_place 4 1 ∷ [];
    }
    ∷ []

abbrev clock : ℕ → ℕ
clock n = 100 + n

latency_send_example :
    (events : List Event) × (latency_sender_func ovd_file 2 clock clock 50 ovd_list
      ≡ ok (events, times_from clock 0 (frame_nals ovd_file 2 (all_nals ovd_list))))
    × (pushed events ≡ map (slice ovd_file) (all_nals ovd_list))
latency_send_example = latency_sender_func-pushed ovd_file 2 clock clock 50 ovd_list (omega arith)

abbrev ovd_calls : List (ℕ × List ℕ)
ovd_calls = (7, 64 ∷ 1 ∷ []) ∷ (8, 2 ∷ []) ∷ (9, 4 ∷ []) ∷ []

return_example :
    (events : List Event) × (sent : List ℕ) × (received : List ℕ) × (latency_sender_func ovd_file 2
        clock clock 50 ovd_list
      ≡ ok (events, sent))
    × (receive_all 2 ovd_calls [] ≡ ok received)
    × (length received ≡ length sent)
return_example =
    receive_all-latency_sender_func ovd_file 2 clock clock 50 ovd_list ovd_calls (omega arith)
      ((omega arith, refl), ((omega arith, refl), ((omega arith, refl), tt))) refl

abbrev sent_times : StreamTimes
sent_times = record {
  ad = 10 ∷ 20 ∷ [];
  ovd = 11 ∷ 21 ∷ [];
  gvd = 12 ∷ 13 ∷ 14 ∷ 15 ∷ 22 ∷ [];
  avd = 9 ∷ 13 ∷ 14 ∷ 15 ∷ 22 ∷ [];
}

abbrev add_diff : ℕ → ℕ → ℕ → ℕ
add_diff total received sent = total + received

abbrev average : ℕ → ℕ → ℕ
average total frames = total

abbrev short_times : StreamTimes
short_times = record sent_times { gvd = 12 ∷ 13 ∷ [] }

abbrev arrivals : List Arrival
arrivals =
    record { payload = some (0 ∷ 0 ∷ 0 ∷ 1 ∷ 38 ∷ []); diff = 5000; first_time = 1; last_time = 2 }
    ∷ record { payload = none; diff = 0; first_time = 3; last_time = 4 }
    ∷ record { payload = some (0 ∷ 0 ∷ 0 ∷ 1 ∷ 2 ∷ []); diff = 3000; first_time = 5; last_time = 6 }
    ∷ []

abbrev three_frames : List (List ℕ)
three_frames = (1 ∷ 2 ∷ []) ∷ (3 ∷ []) ∷ (4 ∷ []) ∷ []

-- The library refuses the second frame.
abbrev refuse_second : ℕ → Bool
refuse_second zero = true
refuse_second (suc n) = false

latency_chunks_example : Does (up_to_refused refuse_second 0 three_frames) (
    latency_chunks refuse_second clock clock clock 50
      (concat three_frames ++ (9 ∷ []))
      (map length three_frames)
      (record { current_frame = 0; offset = 0 }))
latency_chunks_example =
    latency_chunks-pushed refuse_second clock clock clock 50 (9 ∷ []) three_frames (omega arith)
      (omega arith)

abbrev atlas_state : AtlasState
atlas_state = record {
  frame_number = 0;
  send_times = [];
  inter_send = [];
  intra_send = [];
  after_send_times = [];
}

latency_atlas_example :
    IsSent refuse_second clock clock clock 50 ovd_file atlas_state
      (up_to_refused refuse_second 0 (kept_nals ovd_file (all_nals ovd_list) []))
      (latency_atlas_units refuse_second clock clock clock 50 ovd_file ovd_list atlas_state)
latency_atlas_example =
    latency_atlas_units-IsSent refuse_second clock clock clock 50 ovd_file ovd_list atlas_state
      (omega arith) (omega arith)

abbrev intervals : List (List (List ℕ))
intervals = ((0 ∷ 0 ∷ 0 ∷ 1 ∷ 2 ∷ []) ∷ []) ∷ ((0 ∷ 0 ∷ 0 ∷ 1 ∷ 38 ∷ []) ∷ []) ∷ []

echo_example :
    (t : EchoState) × (receiver_loop (intervals ++ [] ∷ []) initial_echo
      ≡ ok (all_frames intervals, t, true))
    × (t.total_frames_received ≡ length (all_frames intervals))
echo_example = receiver_loop-echoes intervals [] (omega arith) (omega arith) (omega arith)

abbrev vpcc_intervals : List (List (Stream × List ℕ))
vpcc_intervals = ((Stream.ad, 1 ∷ []) ∷ (Stream.gvd, 2 ∷ []) ∷ []) ∷ []

vpcc_echoed :
    ((vpcc_receiver_loop (vpcc_intervals ++ [] ∷ []) initial_vpcc_echo).0
      ≡ all_frames vpcc_intervals)
    × (vpcc_total (vpcc_receiver_loop (vpcc_intervals ++ [] ∷ []) initial_vpcc_echo).1
        ≡ length (all_frames vpcc_intervals))
    × ((vpcc_receiver_loop (vpcc_intervals ++ [] ∷ []) initial_vpcc_echo).2 ≡ true)
vpcc_echoed = vpcc_receiver_loop-echoes vpcc_intervals [] (omega arith)

abbrev two_threads : Shared
two_threads = record {
  thread_info = no_info ∷ no_info ∷ [];
  nready = 0;
  frames_received = 0;
  results = [];
}

counted_frames :
    receiver_hooks 1 (frame_calls ((5, 100, 6) ∷ (8, 50, 9) ∷ [])) two_threads
    ≡ ok (
        after_frames two_threads 1
          (record { pkts = 2; bytes = 100 + (50 + 0); start = 5; last = 9 })
          2)
counted_frames =
    receiver_hooks-no_info 1 5 100 6 8 50 9 [] two_threads refl (omega arith) (omega arith)

ssrc_example :
    (expected_ssrc Stream.ovd (init_v3c_streams 8888 8890 [] true)
      ≡ own_ssrc Stream.ovd (init_v3c_streams 8890 8888 (rce_srtp ∷ []) false))
    × (expected_ssrc Stream.ovd (init_v3c_streams 8890 8888 (rce_srtp ∷ []) false)
        ≡ own_ssrc Stream.ovd (init_v3c_streams 8888 8890 [] true))
    × ((stream_number Stream.ovd ≡ stream_number Stream.avd)
        ⊎ (own_ssrc Stream.ovd (init_v3c_streams 8888 8890 [] true)
            ≢ own_ssrc Stream.avd (init_v3c_streams 8888 8890 [] true)))
    × ((stream_number Stream.ovd ≡ stream_number Stream.avd)
        ⊎ (own_ssrc Stream.ovd (init_v3c_streams 8888 8890 [] false)
            ≢ own_ssrc Stream.avd (init_v3c_streams 8888 8890 [] false)))
ssrc_example = init_v3c_streams-ssrc 8888 8890 8890 8888 [] (rce_srtp ∷ []) Stream.ovd Stream.avd

-- The second loop of `intialize_uvgrtp` writes over the key, and the salt stays zero.
srtp_key :
    srtp_calls true
    ≡ add_srtp_ctx m_stream
        (13 ∷ 14 ∷ 15 ∷ 16 ∷ 17 ∷ 18 ∷ 19 ∷ 20 ∷ 21 ∷ 22 ∷ 23 ∷ 24 ∷ 25 ∷ 26 ∷ 21 ∷ 22 ∷ [])
        (replicate 14 0)
      ∷ []
unfolding srtp_calls fill_key
srtp_key = refl
