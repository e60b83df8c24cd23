-- ===== src/Tests/Programs.antt =====
-- The theorems on whole programs, applied to small inputs.
use rtp_benchmarks.Common.{
  ◌+◌, ◌*◌, ◌/◌, ◌<◌, ℕ, ◌≡◌, refl, true, false, List, [], ◌∷◌, Option, none, some, ok, err, Fault,
  ◌>>=◌, map, arith, length, ◌⊎◌,
}
use rtp_benchmarks.V3c.Samples.{samples, samples-IsWellFormed, length-stream_bytes-samples}
use rtp_benchmarks.V3c.Types.{v3c_ad, v3c_ovd, v3c_gvd, v3c_avd}
use rtp_benchmarks.V3c.Mmap.Stream.{stream_bytes}
use rtp_benchmarks.V3c.Write.Units.{block_of}
use rtp_benchmarks.Uvgrtp.Sender.{sender_thread}
use rtp_benchmarks.Uvgrtp.Sender.Sends.{pushed}
use rtp_benchmarks.Uvgrtp.VpccSender.Streams.{Clock, Clocks, Sent, main}
use rtp_benchmarks.Uvgrtp.VpccSender.Places.{all_nals_of}
use rtp_benchmarks.Uvgrtp.VpccSender.Delivers.{stream_total, main-stream}
use rtp_benchmarks.Live555.Source.Streams.{Coded, written}
use rtp_benchmarks.Live555.Source.Queues
use rtp_benchmarks.Live555.Source.Queues.{serve_all, deliver_all}
use rtp_benchmarks.Live555.Source.Refines.{initial_source, deliver_all-queue}
use rtp_benchmarks.Live555.LatencyReceiver
use rtp_benchmarks.Live555.LatencyReceiver.{received, asked}
use rtp_benchmarks.Live555.LatencyReceiver.Echoes.{on_calls, on_calls-unlock}
use rtp_benchmarks.Live555.Sink
use rtp_benchmarks.Live555.Sink.{playing, exit_success, after_getting_frames}
use rtp_benchmarks.Live555.Sink.Ends.{
  first_repeat, is_some, fresh, thread_func-ends, after_getting_frames_lem,
}
use rtp_benchmarks.Ffmpeg.Sender
use rtp_benchmarks.Ffmpeg.Sender.Matches.{accepts, thread_func-sender_thread}
use rtp_benchmarks.Ffmpeg.Receiver
use rtp_benchmarks.Ffmpeg.Receiver.{Packet}
use rtp_benchmarks.Ffmpeg.Receiver.Results.{line_of, thread_func-line_of}
use rtp_benchmarks.Udperf.{
  max_rounds, max_pkts, receive_rounds, server, client_rounds, read_options, no_settings,
}
use rtp_benchmarks.Udperf.Rounds.{
  packets, sum, all_answers, repeat, server-sum, client_rounds-server,
}
use rtp_benchmarks.Udperf.Options.{read, read_options-last}

abbrev clock : Clock
clock = record { now = λ n. 100 + n; start = 5; end = 900 }

abbrev clocks : Clocks
clocks = record { ad_clock = clock; ovd_clock = clock; gvd_clock = clock; avd_clock = clock }

vpcc_main_example :
    (sent : Sent) × (main (some (64 ∷ stream_bytes samples)) clocks 33333 ≡ ok (0, some sent))
    × (pushed sent.ad_events ≡ map block_of (all_nals_of v3c_ad samples))
    × (pushed sent.ovd_events ≡ map block_of (all_nals_of v3c_ovd samples))
    × (pushed sent.gvd_events ≡ map block_of (all_nals_of v3c_gvd samples))
    × (pushed sent.avd_events ≡ map block_of (all_nals_of v3c_avd samples))
    × (sent.total_bytes_sent ≡ stream_total samples)
vpcc_main_example =
    main-stream samples 64 clocks 33333 samples-IsWellFormed (omega arith) (omega arith)
      (omega arith) (omega (arith, length-stream_bytes-samples))

-- Two NAL units, behind a short and a long start code.
abbrev coded : List Coded
coded = (false, 38 ∷ 7 ∷ []) ∷ (true, 2 ∷ 0 ∷ 9 ∷ []) ∷ []

abbrev ask : ℕ → Queues.Call
ask room = record { awaiting = true; runtime = 10; max_size = room }

abbrev asks : List Queues.Call
asks = ask 1500 ∷ ask 2 ∷ ask 1500 ∷ []

queue_example :
    deliver_all 2 (written coded) 50 asks initial_source
    ≡ ok (serve_all 50 asks (record { nals = map (λ c. c.1) coded; frames = 0; sent = 0 }))
queue_example =
    deliver_all-queue 2 coded 50 asks (omega arith)
      (((omega arith, refl), ((omega arith, refl), record {}))) (omega arith)

abbrev echoed : List LatencyReceiver.Call
echoed = received (7 ∷ 8 ∷ []) false 100 ∷ asked true 1 ∷ received (9 ∷ []) true 100 ∷ []

abbrev crowded : List LatencyReceiver.Call
crowded = received (7 ∷ 8 ∷ []) false 100 ∷ received (9 ∷ []) true 100 ∷ []

unlock_example : on_calls crowded LatencyReceiver.initial_state ≡ err Fault.bad_access
unlock_example = on_calls-unlock crowded refl (omega arith) (omega arith)

sleeps_example :
    (Sink.thread_func (3 ∷ 5 ∷ 5 ∷ []) ≡ first_repeat 3 (5 ∷ 5 ∷ []))
    × ((2 < 601) ⊎ (is_some (Sink.thread_func (3 ∷ 5 ∷ 5 ∷ [])) ≡ true))
sleeps_example = thread_func-ends 3 (5 ∷ 5 ∷ []) (omega arith) (omega arith)

frames_example :
    (after_getting_frames 5 fresh ≡ playing (record { frames = 5; threads = 1 }))
    × (after_getting_frames 603 fresh ≡ exit_success (record { frames = 601; threads = 1 }))
frames_example = after_getting_frames_lem 4 2 (omega arith)

same_example :
    Sender.thread_func clock.now 33333 (1 ∷ 2 ∷ 3 ∷ []) (2 ∷ 1 ∷ [])
    ≡ sender_thread accepts clock.now 33333 (1 ∷ 2 ∷ 3 ∷ []) (2 ∷ 1 ∷ [])
same_example = thread_func-sender_thread clock.now 33333 (1 ∷ 2 ∷ 3 ∷ []) (2 ∷ 1 ∷ []) (omega arith)

abbrev read_two : List Packet
read_two =
    record { stream_index = 1; size = 700; others = 0; received = 20 }
    ∷ record { stream_index = 0; size = 30; others = 2; received = 24 }
    ∷ []

abbrev one_more : Receiver.Others
one_more = record { before_test = 1; before_print = 0; last = some 30 }

line_example :
    Receiver.thread_func (true ∷ true ∷ false ∷ []) read_two one_more 0 0 10 ≡ line_of 5 700 5 20
line_example =
    thread_func-line_of (true ∷ []) (false ∷ []) read_two one_more 0 10 (refl, record {})
      (omega arith) (omega arith) (omega arith) (omega arith)

abbrev timed_out : List (Option ℕ)
timed_out = some 5 ∷ some 2 ∷ repeat 12 none

server_example :
    (sent : List ℕ) × (left : List (Option ℕ)) × (receive_rounds max_rounds timed_out
      ≡ ok (sent, left))
    × (server timed_out ≡ ok sent)
    × (length sent ≡ max_rounds)
    × (sum sent + packets left ≡ packets timed_out)
server_example = server-sum timed_out (omega arith) (omega arith)

abbrev all_arrive : List (List ℕ)
all_arrive = repeat 10 (100000 ∷ 250000 ∷ [])

client_example :
    (server (all_answers all_arrive) >>= client_rounds 1500)
    ≡ ok (repeat max_rounds (max_pkts * 1500 / 1000 / 1000, max_pkts))
client_example = client_rounds-server all_arrive 1500 refl (omega arith) (omega arith)

abbrev options : List (ℕ × List ℕ)
options = (115, 49 ∷ []) ∷ (105, 52 ∷ []) ∷ (115, 50 ∷ []) ∷ []

options_example : read_options length options no_settings ≡ some (read length options no_settings)
options_example = read_options-last length options no_settings (refl, (refl, (refl, record {})))
