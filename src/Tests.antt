-- ===== src/Tests.antt =====
-- Tests of the receiving end, of util/ and of the senders, and the theorems applied to small inputs.
mod Latency
mod Live
mod Programs
mod Senders
use rtp_benchmarks.Common.{
  ℕ, zero, suc, ◌+◌, ◌*◌, ◌≤◌, ◌<◌, ◌≡◌, refl, ◌↔◌, Bool, true, false, List, [], ◌∷◌, ◌++◌, none,
  some, map, ok, arith, length, drop, max,
}
use rtp_benchmarks.V3c.Types.{NalInfo, V3cUnitInfo, blank_header}
use rtp_benchmarks.V3c.Receive.{
  init_mmap, new_unit, numbered_header, copy_rtp_payload, is_gop_ready,
}
use rtp_benchmarks.V3c.Receive.Collects.{IsCollected, copy_rtp_payload-IsCollected}
use rtp_benchmarks.V3c.Receive.Runs.{
  collect, with_units, first_unit-IsCollected, init_mmap-is_gop_ready,
}
use rtp_benchmarks.V3c.Write.Units.{total_size}
use rtp_benchmarks.Util.Chunks.{sizes_bytes, get_chunk_sizes, get_chunk_sizes-sizes_bytes}
use rtp_benchmarks.Util.Names.{dot, letter_m, get_chunk_filename, get_chunk_filename_lem}
use rtp_benchmarks.Util.Files.{
  Answer, failed, chunks, Files, concat, frames_of, encode_pictures, encode_pictures-frames, grown,
}
use rtp_benchmarks.Util.FrameStart.{get_next_frame_start}
use rtp_benchmarks.Util.FrameStart.Finds.{
  IsAnswer, IsShort, code_end, get_next_frame_start-IsAnswer,
}
use rtp_benchmarks.Uvgrtp.Sender.{Event, pace, sender_thread}
use rtp_benchmarks.Uvgrtp.Sender.Sends.{
  pushed, written, slept, slept-pace, sender_thread-frames, sender_thread-refused,
}
use rtp_benchmarks.Uvgrtp.Sender.Encoded.{empty_files, sender_thread-encode_pictures}
use rtp_benchmarks.Uvgrtp.AtlasSender.{atlas_sender_func, is_skipped}
use rtp_benchmarks.Uvgrtp.AtlasSender.Sends.{kept, atlas_sender_func-pushed}
use rtp_benchmarks.Uvgrtp.VpccReceiver.{
  hooks, frame_calls, no_results, total_len, last_time, hooks-no_results,
}
use rtp_benchmarks.Uvgrtp.VpccSender.{Progress, sender_func, send_units}
use rtp_benchmarks.Uvgrtp.VpccSender.Sends.{
  slice, all_nals, frame_nals, per_frame, sender_func-pushed, send_units-current_frame,
}

abbrev first_units : List V3cUnitInfo
first_units = new_unit (numbered_header 3 0) ∷ []

copy_example :
    (grown_units : List V3cUnitInfo) × (copy_rtp_payload first_units 4 (5 ∷ 6 ∷ [])
      ≡ ok grown_units)
    × IsCollected 3 4 ((5 ∷ 6 ∷ []) ∷ []) grown_units
copy_example =
    copy_rtp_payload-IsCollected 3 4 (5 ∷ 6 ∷ []) [] first_units
      (first_unit-IsCollected 3 4 (omega arith)) (omega arith) (omega arith) (omega arith)

abbrev atlas_frames : List (List ℕ)
atlas_frames = (1 ∷ []) ∷ (2 ∷ []) ∷ []

abbrev video_frames : List (List ℕ)
video_frames = (1 ∷ []) ∷ (2 ∷ 3 ∷ []) ∷ (4 ∷ []) ∷ []

abbrev vps_list : List V3cUnitInfo
vps_list = new_unit (blank_header 0) ∷ []

gop_ready_example :
    (ad_list : List V3cUnitInfo) × (ovd_list : List V3cUnitInfo) × (gvd_list : List V3cUnitInfo)
    × (avd_list : List V3cUnitInfo) × (collect 1 atlas_frames init_mmap.ad_units ≡ ok ad_list)
    × (collect 2 video_frames init_mmap.ovd_units ≡ ok ovd_list)
    × (collect 2 video_frames init_mmap.gvd_units ≡ ok gvd_list)
    × (collect 2 video_frames init_mmap.avd_units ≡ ok avd_list)
    × ((is_gop_ready 0 (with_units vps_list ad_list ovd_list gvd_list avd_list) ≡ true) ↔ (
        (0 < length vps_list)
        × ((0 + 1) * 1 ≤ length atlas_frames)
        × ((0 + 1) * 2 ≤ length video_frames)
        × ((0 + 1) * 2 ≤ length video_frames)
        × ((0 + 1) * 2 ≤ length video_frames)))
gop_ready_example =
    init_mmap-is_gop_ready 0 vps_list atlas_frames video_frames video_frames video_frames 1 2 2 2
      (omega arith, omega arith, omega arith, omega arith)
      (omega arith, omega arith, omega arith, omega arith)
      (omega arith, omega arith, omega arith, omega arith)

chunk_sizes_example :
    get_chunk_sizes (some (sizes_bytes (300 ∷ 7 ∷ []) ++ (1 ∷ 2 ∷ []))) (4 ∷ [])
    ≡ (4 ∷ []) ++ (300 ∷ 7 ∷ [])
chunk_sizes_example =
    get_chunk_sizes-sizes_bytes (300 ∷ 7 ∷ []) (1 ∷ 2 ∷ []) (4 ∷ []) (omega arith) (omega arith)

-- "a.b.hevc" is "a.b.mhevc".
chunk_filename_example :
    (get_chunk_filename ((97 ∷ dot ∷ 98 ∷ []) ++ (dot ∷ 104 ∷ 101 ∷ 118 ∷ 99 ∷ []))
      ≡ (97 ∷ dot ∷ 98 ∷ []) ++ (dot ∷ letter_m ∷ 104 ∷ 101 ∷ 118 ∷ 99 ∷ []))
    × (get_chunk_filename (104 ∷ 101 ∷ 118 ∷ 99 ∷ []) ≡ dot ∷ letter_m ∷ [])
chunk_filename_example =
    get_chunk_filename_lem (97 ∷ dot ∷ 98 ∷ []) (104 ∷ 101 ∷ 118 ∷ 99 ∷ []) (ground arith)

abbrev picture_answers : List Answer
picture_answers = chunks none ∷ chunks (some ((1 ∷ 2 ∷ []) ∷ (3 ∷ []) ∷ [])) ∷ []

abbrev drain_answers : List Answer
drain_answers = chunks (some ((4 ∷ []) ∷ [])) ∷ []

encode_example :
    encode_pictures picture_answers (drain_answers ++ (chunks none ∷ failed ∷ [])) empty_files
    ≡ some (0, grown (grown empty_files (frames_of picture_answers)) (frames_of drain_answers))
encode_example =
    encode_pictures-frames picture_answers drain_answers (failed ∷ []) empty_files
      (tt, (omega arith, tt)) (omega arith, tt)

-- Every push is accepted but the third.
abbrev push_two : ℕ → Bool
push_two zero = true
push_two (suc zero) = true
push_two (suc (suc n)) = false

abbrev clock : ℕ → ℕ
clock n = n * 20000

push_two_accepts : (i : ℕ) → 0 ≤ i → i < 2 → push_two i ≡ true
push_two_accepts zero l h = refl
push_two_accepts (suc zero) l h = refl
push_two_accepts (suc (suc i)) l h = absurd (omega arith)

abbrev two_frames : List (List ℕ)
two_frames = (1 ∷ 2 ∷ 3 ∷ []) ∷ (4 ∷ []) ∷ []

encode_send_example :
    (files : Files) × (events : List Event) × (encode_pictures picture_answers
        (drain_answers ++ (chunks none ∷ []))
        empty_files
      ≡ some (0, files))
    × (sender_thread push_two clock 33333 files.output (get_chunk_sizes (some files.memory) [])
        ≡ ok events)
    × (pushed events ≡ two_frames)
    × (written events ≡ length files.output ∷ [])
encode_send_example =
    sender_thread-encode_pictures push_two clock 33333 picture_answers drain_answers []
      (tt, (omega arith, tt)) (omega arith, tt) (omega arith) (omega arith) push_two_accepts

send_example :
    (events : List Event) × (sender_thread push_two clock 33333
        (concat two_frames ++ (9 ∷ []))
        (map length two_frames)
      ≡ ok events)
    × (pushed events ≡ two_frames)
    × (written events ≡ length (concat two_frames) ∷ [])
send_example =
    sender_thread-frames push_two clock 33333 (9 ∷ []) two_frames (omega arith) (omega arith)
      push_two_accepts

refused_example :
    (events : List Event) × (sender_thread push_two clock 33333
        (concat two_frames ++ ((8 ∷ []) ++ (9 ∷ [])))
        (map length two_frames ++ (1 ∷ 5 ∷ []))
      ≡ ok events)
    × (pushed events ≡ two_frames ++ ((8 ∷ []) ∷ []))
    × (written events ≡ [])
refused_example =
    sender_thread-refused push_two clock 33333 (9 ∷ []) two_frames (8 ∷ []) (5 ∷ []) (omega arith)
      (omega arith) push_two_accepts refl

pace_example : 5000 + slept (pace 33333 2 5000) ≡ max 5000 (2 * 33333)
pace_example = slept-pace 33333 2 5000 (omega arith)

abbrev coded : List ℕ
coded = 9 ∷ 0 ∷ 0 ∷ 0 ∷ 1 ∷ 64 ∷ []

coded-IsShort : IsShort 0 (drop 1 coded)
unfolding IsShort
coded-IsShort = omega arith

frame_start_example :
    IsAnswer coded 1 7 (get_next_frame_start coded 1 6 7) (code_end (drop 1 coded))
frame_start_example =
    get_next_frame_start-IsAnswer coded 1 7 (omega arith) (omega arith) coded-IsShort

abbrev nal_at_place : ℕ → ℕ → NalInfo
nal_at_place p n = record { location = p; size = n; buf = none }

abbrev stream_units : List V3cUnitInfo
stream_units =
    record (new_unit (numbered_header 3 0)) { nal_infos = nal_at_place 0 2 ∷ nal_at_place 2 3 ∷ [] }
    ∷ []

abbrev stream_file : List ℕ
stream_file = 64 ∷ 1 ∷ 2 ∷ 3 ∷ 4 ∷ []

vpcc_send_example :
    (events : List Event) × (sender_func stream_file 3 clock 33333 stream_units
      ≡ ok (events, total_size (all_nals stream_units)))
    × (pushed events ≡ map (slice stream_file) (all_nals stream_units))
vpcc_send_example =
    sender_func-pushed stream_file 3 clock 33333 stream_units (omega arith) (omega arith)
      (omega arith)

vpcc_frames_example :
    (events : List Event) × (last : Progress) × (send_units stream_file 3 clock 33333 stream_units
        (record { temp_nalu = 0; current_frame = 0; bytes_sent = 0 })
      ≡ ok (events, last))
    × (last.temp_nalu + last.current_frame * per_frame 3
        ≡ frame_nals stream_file 3 (all_nals stream_units))
    × (last.temp_nalu < per_frame 3)
vpcc_frames_example =
    send_units-current_frame stream_file 3 clock 33333 stream_units (omega arith) (omega arith)
      (omega arith)

-- The second NAL unit has the type 32.
abbrev atlas_units : List V3cUnitInfo
atlas_units =
    record (new_unit (numbered_header 1 0)) { nal_infos = nal_at_place 1 2 ∷ nal_at_place 0 1 ∷ [] }
    ∷ []

always : (n : ℕ) → (λ (k : ℕ). true) n ≡ true
always n = refl

atlas_send_example :
    (events : List Event) × (atlas_sender_func (λ n. true) clock 33333 stream_file atlas_units
      ≡ ok events)
    × (pushed events ≡ map (slice stream_file) (kept stream_file atlas_units))
    × (written events ≡ total_size (kept stream_file atlas_units) ∷ [])
atlas_send_example =
    atlas_sender_func-pushed (λ n. true) clock 33333 stream_file always atlas_units (omega arith)
      (omega arith)

atlas_kept : kept stream_file atlas_units ≡ nal_at_place 1 2 ∷ []
unfolding is_skipped
atlas_kept = refl

receive_example : hooks (frame_calls ((5, 100, 6) ∷ (8, 50, 9) ∷ [])) no_results false ≡ (
  record {
    packets_received = 1 + length {A = ℕ × ℕ × ℕ} ((8, 50, 9) ∷ []);
    bytes_received = 100 + total_len ((8, 50, 9) ∷ []);
    start = 5;
    last = last_time 6 ((8, 50, 9) ∷ []);
  },
  true,
)
receive_example = hooks-no_results 5 100 6 ((8, 50, 9) ∷ []) false (omega arith) (omega arith)
