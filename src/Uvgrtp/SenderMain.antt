-- ===== src/Uvgrtp/SenderMain.antt =====
-- `main` of uvgrtp/sender.cc from `get_mem` on: in the atlas format the file is searched for its units
-- and one function sends the atlas units; in the others each thread sends the chunks of the file, on
-- its own ports. The answers to `push_frame` and the clocks, one for each thread, are arguments.
pub mod Delivers
pub mod Threads
use rtp_benchmarks.Common.{
  ℕ, zero, suc, ◌+◌, ◌*◌, Bool, true, false, List, [], ◌∷◌, Option, none, some, Result, ok, ◌>>=◌,
  length, ◌==◌, if◌then◌else◌, u16,
}
use rtp_benchmarks.V3c.Types.{V3cFileMap, empty_file_map}
use rtp_benchmarks.V3c.Mmap.{mmap_v3c_file}
use rtp_benchmarks.Uvgrtp.Sender.{Event, sender_thread}
use rtp_benchmarks.Uvgrtp.AtlasSender.{atlas_sender_func}

-- What answers a thread: the library, by the number of the frame, and the clock.
pub record Answers : Type 0 where
  pub push : ℕ → Bool
  pub now : ℕ → ℕ

-- A thread's ports, and what it does.
pub record Thread : Type 0 where
  pub thread_local_port : ℕ
  pub thread_remote_port : ℕ
  pub events : List Event

-- `port + thread_num * 2` in a `uint16_t`; the `int` becomes one when it is passed to the thread.
unfoldable pub thread_port : ℕ → ℕ → ℕ
thread_port port thread_num = u16 (u16 port + thread_num * 2)

-- The bytes that `mem` points to; none are there when it is null.
abbrev pub bytes_at : Option (List ℕ) → List ℕ
bytes_at none = []
bytes_at (some mem) = mem

module _ (local_port remote_port period : ℕ) where
  -- The threads from the number `thread_num` on.
  unfoldable pub run_threads : List Answers → ℕ → List ℕ → List ℕ → Result (List Thread)
  run_threads [] thread_num mem chunk_sizes = ok []
  run_threads (a ∷ answers) thread_num mem chunk_sizes = do
    events ← sender_thread a.push a.now period mem chunk_sizes
    rest ← run_threads answers (thread_num + 1) mem chunk_sizes
    ok (
        record {
          thread_local_port = thread_port local_port thread_num;
          thread_remote_port = thread_port remote_port thread_num;
          events = events;
        }
        ∷ rest)

  unfoldable pub send_chunks : Option (List ℕ) → List ℕ → List Answers → Result (ℕ × List Thread)
  send_chunks none chunk_sizes answers = ok (1, [])
  send_chunks (some mem) chunk_sizes answers =
      let started = run_threads answers 0 mem chunk_sizes >>= (λ threads. ok (0, threads)) in
      if length chunk_sizes == 0 then ok (1, []) else started

-- The exit code and what is sent. The file is searched before `mem` is compared with null.
unfoldable pub send_atlas : Option (List ℕ) → Answers → ℕ → Result (ℕ × List Event)
send_atlas mem a period =
    mmap_v3c_file (bytes_at mem) (length (bytes_at mem)) empty_file_map
    >>= (λ (parsed, m). send_mapped mem m)
  where
    send_mapped : Option (List ℕ) → V3cFileMap → Result (ℕ × List Event)
    send_mapped none m = ok (1, [])
    send_mapped (some cbuf) m =
        atlas_sender_func a.push a.now period cbuf m.ad_units >>= (λ events. ok (0, events))
