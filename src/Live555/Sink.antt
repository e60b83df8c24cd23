-- ===== src/Live555/Sink.antt =====
-- `afterGettingFrame` and `thread_func` of live555/sink.cc and live555/latsink.cc, which are the same
-- in both, and `thread_func` of live555/latency_receiver.cc, live555/latency_sender.cc, which differ in
-- the period that they sleep. What the thread reads of `frames` behind each sleep is an argument.
pub mod Ends
use rtp_benchmarks.Common.{
  ℕ, zero, suc, ◌+◌, ◌-◌, ◌^◌, Bool, true, false, List, [], ◌∷◌, Option, none, some, ◌==◌,
  if◌then◌else◌, u32, u64,
}

-- The loop: the number of frames when it is left. Without a further reading the thread sleeps.
unfoldable pub watch_loop : List ℕ → ℕ → Option ℕ
watch_loop [] prev_frames = none
watch_loop (frames ∷ readings) prev_frames =
    let rest = watch_loop readings (u32 frames) in
    if prev_frames == frames then some frames else rest

-- What is printed, behind the number of bytes, before `exit(EXIT_FAILURE)`.
unfoldable pub thread_func : List ℕ → Option ℕ
thread_func readings = watch_loop readings (2 ^ 32 - 1)

-- The global `frames`, and how many watching threads have been started.
pub record SinkState : Type 0 where
  pub frames : ℕ
  pub threads : ℕ

-- It goes on, or `exit(EXIT_SUCCESS)` follows.
pub data Received : Type 0 where
  playing exit_success : SinkState → Received

unfoldable pub after_getting_frame : SinkState → Received
after_getting_frame s =
    let threads' = if s.frames == 0 then s.threads + 1 else s.threads in
    let s' : SinkState = record { frames = u64 (s.frames + 1); threads = threads' } in
    if s'.frames == 601 then exit_success s' else playing s'

-- A number of frames, one after the other.
unfoldable pub after_getting_frames : ℕ → SinkState → Received
after_getting_frames zero s = playing s
after_getting_frames (suc n) s = go_on (after_getting_frame s) (after_getting_frames n)
  where
    go_on : Received → (SinkState → Received) → Received
    go_on (playing t) next = next t
    go_on (exit_success t) next = exit_success t
