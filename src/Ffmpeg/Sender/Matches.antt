-- ===== src/Ffmpeg/Sender/Matches.antt =====
-- ffmpeg/sender.cc sends what uvgrtp/sender.cc does.
use rtp_benchmarks.Common.{
  ℕ, ◌+◌, ◌^◌, ◌≤◌, ◌<◌, ◌≡◌, refl, Bool, true, false, List, [], ◌∷◌, ◌++◌, map, some, ok, arith,
  All, length, ◌==◌, u32, u64, add64,
}
use rtp_benchmarks.Util.Files.{concat}
use rtp_benchmarks.Uvgrtp.Sender.{Event, after_push, sender_loop, sender_thread}
use rtp_benchmarks.Uvgrtp.Sender.Sends.{pushed, written, sender_thread-frames}
use rtp_benchmarks.Ffmpeg.Sender.{packet_loop, thread_func, run_threads, send_file}

-- The uvgRTP library accepts each push.
abbrev pub accepts : ℕ → Bool
accepts n = true

abbrev pub IsPacket : ℕ → Type 0
IsPacket size = size < 2 ^ 31

module _ (now : ℕ → ℕ) (period : ℕ) (mem : List ℕ) where
  packet_loop-sender_loop :
      (chunk_sizes : List ℕ) (bytes_sent current_frame : ℕ)
      → All IsPacket chunk_sizes
      → packet_loop now period mem chunk_sizes bytes_sent current_frame
        ≡ sender_loop accepts now period mem chunk_sizes bytes_sent current_frame
  unfolding packet_loop sender_loop after_push
  packet_loop-sender_loop [] bytes_sent current_frame a = refl
  packet_loop-sender_loop (chunk_size ∷ chunk_sizes) bytes_sent current_frame (h, a) =
      let narrow : u32 chunk_size ≡ chunk_size = omega arith in
      rw
        (
          narrow,
          packet_loop-sender_loop chunk_sizes (add64 bytes_sent chunk_size)
              (u64 (current_frame + 1)) a,
        )
        refl

  -- On the same file, with the same sizes, period and times, the FFmpeg sender writes as packets, and
  -- waits and reports, exactly what the uvgRTP sender pushes, waits and reports when each of its pushes
  -- is accepted, faults on a file that is too short included; the sizes are below 2 ^ 31.
  pub thread_func-sender_thread :
      (chunk_sizes : List ℕ)
      → All IsPacket chunk_sizes
      → thread_func now period mem chunk_sizes ≡ sender_thread accepts now period mem chunk_sizes
  unfolding thread_func sender_thread
  thread_func-sender_thread chunk_sizes a = packet_loop-sender_loop chunk_sizes 0 0 a

-- Each thread has sent these frames.
abbrev pub AllSent : List (List ℕ) → List (List Event) → Type 0
AllSent frames threads =
    All (λ events. (pushed events ≡ frames) × (written events ≡ length (concat frames) ∷ []))
      threads

run_threads-AllSent :
    (clocks : List (ℕ → ℕ)) (period : ℕ) (frames : List (List ℕ)) (tail : List ℕ)
    → All IsPacket (map length frames)
    → length (concat frames ++ tail) < 2 ^ 64
    → length frames < 2 ^ 64
    → (threads : List (List Event)) × (run_threads clocks period
          (concat frames ++ tail)
          (map length frames)
        ≡ ok threads)
      × AllSent frames threads
      × (length threads ≡ length clocks)
unfolding run_threads
run_threads-AllSent [] period frames tail a h k = ([], refl, record {}, refl)
run_threads-AllSent (now ∷ clocks) period frames tail a h k =
    let same = thread_func-sender_thread now period (concat frames ++ tail) (map length frames) a in
    let (events, runs, pushes, writes) =
      sender_thread-frames accepts now period tail frames h k (λ i l u. refl) in
    let (threads, more, all, size) = run_threads-AllSent clocks period frames tail a h k in
    (events ∷ threads, rw (same, runs, more) refl, ((pushes, writes), all), omega arith)

-- With a file of frames, perhaps with more bytes behind them, and the list of their sizes, which is not
-- empty, the program ends with the code 0 and each thread writes each frame once, in order, and
-- reports the number of their bytes; the sizes are below 2 ^ 31.
pub send_file-frames :
    (clocks : List (ℕ → ℕ)) (period : ℕ) (frames : List (List ℕ)) (tail : List ℕ)
    → 1 ≤ length frames
    → All IsPacket (map length frames)
    → length (concat frames ++ tail) < 2 ^ 64
    → length frames < 2 ^ 64
    → (threads : List (List Event)) × (send_file
          (some (concat frames ++ tail))
          (map length frames)
          clocks
          period
        ≡ ok (0, threads))
      × AllSent frames threads
      × (length threads ≡ length clocks)
unfolding send_file
send_file-frames clocks period [] tail b a h k = absurd (omega arith)
send_file-frames clocks period (frame ∷ frames) tail b a h k =
    let (threads, runs, all, size) =
      run_threads-AllSent clocks period (frame ∷ frames) tail a h k in
    let filled : (length (map length (frame ∷ frames)) == 0) ≡ false = ground arith in
    (threads, rw (filled, runs) refl, all, size)
