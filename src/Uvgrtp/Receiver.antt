-- ===== src/Uvgrtp/Receiver.antt =====
-- uvgrtp/receiver.cc: the hook that counts the frames of a receiver thread, and the loop in which the
-- thread waits for them. The clock, in milliseconds, and the calls of the hook are arguments. The
-- counters of type `int` are taken to stay below 2 ^ 31.
pub mod Counts
use rtp_benchmarks.Common.{
  ℕ, ◌+◌, ◌-◌, ◌≡◌, Bool, true, false, not, List, [], ◌∷◌, ◌++◌, Option, none, some, Result, ok,
  err, Fault, ◌>>=◌, ◌⊎◌, inl, inr, ltb, leb, ◌==◌, if◌then◌else◌, add64, set, get_elem?, require,
}
use rtp_benchmarks.Uvgrtp.Echo.{expected_frames}

-- `struct thread_info`, which starts with zeros.
pub record ThreadInfo : Type 0 where
  pub pkts : ℕ
  pub bytes : ℕ
  pub start : ℕ
  pub last : ℕ

abbrev pub no_info : ThreadInfo
no_info = record { pkts = 0; bytes = 0; start = 0; last = 0 }

-- One result: the bytes, the packets and the time that `write_receive_results_to_file` is given. The
-- clock does not run backwards.
pub record Written : Type 0 where
  pub written_bytes : ℕ
  pub written_pkts : ℕ
  pub diff : ℕ

unfoldable pub write_results : ThreadInfo → Written
write_results t = record { written_bytes = t.bytes; written_pkts = t.pkts; diff = t.last - t.start }

-- The globals, and the results that have been written.
pub record Shared : Type 0 where
  pub thread_info : List ThreadInfo
  pub nready : ℕ
  pub frames_received : ℕ
  pub results : List Written

-- One call: the first time that it reads, the payload's length, or none for a null pointer, and the
-- second time.
pub record FrameCall : Type 0 where
  pub entered : ℕ
  pub payload_len : Option ℕ
  pub received : ℕ

unfoldable pub note_entry : ℕ → ThreadInfo → ThreadInfo
note_entry now t = if t.pkts == 0 then record t { start = now } else t

unfoldable pub note_payload : ℕ → ℕ → ThreadInfo → ThreadInfo
note_payload payload_len now t = record t {
  last = now;
  bytes = add64 t.bytes payload_len;
  pkts = add64 t.pkts 1;
}

-- The last `if`.
unfoldable pub note_ready : ThreadInfo → Shared → Shared
note_ready t s =
    if t.pkts == expected_frames
    then record s { nready = s.nready + 1; results = s.results ++ write_results t ∷ [] }
    else s

unfoldable pub hook_frame : Option ℕ → ℕ → ThreadInfo → ℕ → Shared → Shared
hook_frame none received t tid s = record s {
  thread_info = set s.thread_info tid t;
  nready = s.nready + 1;
}
hook_frame (some payload_len) received t tid s =
    let next = note_payload payload_len received t in
    note_ready next (record s {
      thread_info = set s.thread_info tid next;
      frames_received = s.frames_received + 1;
    })

-- An access of `thread_info` beyond the threads is one out of bounds.
unfoldable pub receiver_hook : ℕ → FrameCall → Shared → Result Shared
receiver_hook tid call s = do
  t ← require Fault.bad_access (get_elem? s.thread_info tid)
  ok (hook_frame call.payload_len call.received (note_entry call.entered t) tid s)

pub receiver_hooks : ℕ → List FrameCall → Shared → Result Shared
receiver_hooks tid [] s = ok s
receiver_hooks tid (call ∷ rest) s = do s' ← receiver_hook tid call s; receiver_hooks tid rest s'

-- The locals of the loop of `receiver_thread`.
pub record Watch : Type 0 where
  pub previous_packets : ℕ
  pub last_update : ℕ

-- What a thread reads in one round: the atomic counters, and the clock.
pub record Poll : Type 0 where
  pub nready : ℕ
  pub frames_received : ℕ
  pub now : ℕ

-- How the loop is left.
pub data Left : Type 0 where
  all_ready : Left
  timed_out : Left

unfoldable pub poll_step : Watch → Poll → Watch ⊎ Left
poll_step w p =
    if not (p.frames_received == w.previous_packets)
    then inl (record { previous_packets = p.frames_received; last_update = p.now })
    else if leb (w.last_update + 200) p.now
    then inr timed_out
    else inl w

unfoldable pub next_round : Watch ⊎ Left → (Watch → Option Left) → Option Left
next_round (inl w) more = more w
next_round (inr left) more = some left

-- The loop of one of `nthreads` threads, for what it reads in each round; `none` when it is still
-- running then. A round reads each counter once.
pub watch_loop : ℕ → List Poll → Watch → Option Left
watch_loop nthreads [] w = none
watch_loop nthreads (p ∷ rest) w =
    if ltb p.nready nthreads
    then next_round (poll_step w p) (watch_loop nthreads rest)
    else some all_ready
