-- ===== src/Ffmpeg/Sender.antt =====
-- `thread_func` of ffmpeg/sender.cc from the send loop on, and its `main`. The clock and the period are
-- arguments; `av_interleaved_write_frame`, whose result is not looked at, is the event `push_frame`. A
-- packet has an `int` for its size: a chunk of 2 ^ 31 bytes or more is not modelled as the code has it.
pub mod Matches
use rtp_benchmarks.Common.{
  ℕ, ◌+◌, ◌≡◌, Bool, List, [], ◌∷◌, ◌++◌, Option, none, some, Result, ok, ◌>>=◌, length, ◌==◌,
  if◌then◌else◌, u32, u64, add64,
}
use rtp_benchmarks.V3c.Types.{load_bytes}
use rtp_benchmarks.Uvgrtp.Sender.{Event, push_frame, write_send_results, pace}

-- `now n` is the runtime that is read behind the packet number `n`.
module _ (now : ℕ → ℕ) (period : ℕ) (mem : List ℕ) where
  unfoldable pub packet_loop : List ℕ → ℕ → ℕ → Result (List Event)
  packet_loop [] bytes_sent current_frame = ok (write_send_results bytes_sent ∷ [])
  packet_loop (chunk_size ∷ chunk_sizes) bytes_sent current_frame = do
    payload ← load_bytes mem bytes_sent (u32 chunk_size)
    events ← packet_loop chunk_sizes (add64 bytes_sent chunk_size) (u64 (current_frame + 1))
    ok (push_frame payload ∷ (pace period (u64 (current_frame + 1)) (now current_frame) ++ events))

  unfoldable pub thread_func : List ℕ → Result (List Event)
  thread_func chunk_sizes = packet_loop chunk_sizes 0 0

-- One thread for each clock; they share nothing that one of them writes but a counter of those that
-- are ready, which nothing reads.
unfoldable pub run_threads : List (ℕ → ℕ) → ℕ → List ℕ → List ℕ → Result (List (List Event))
run_threads [] period mem chunk_sizes = ok []
run_threads (now ∷ clocks) period mem chunk_sizes = do
  events ← thread_func now period mem chunk_sizes
  rest ← run_threads clocks period mem chunk_sizes
  ok (events ∷ rest)

-- The exit code, and what each thread has done; `none` is a file that `get_mem` cannot give.
unfoldable pub send_file :
    Option (List ℕ) → List ℕ → List (ℕ → ℕ) → ℕ → Result (ℕ × List (List Event))
send_file none chunk_sizes clocks period = ok (1, [])
send_file (some mem) chunk_sizes clocks period =
    let started = run_threads clocks period mem chunk_sizes >>= (λ threads. ok (0, threads)) in
    if length chunk_sizes == 0 then ok (1, []) else started
