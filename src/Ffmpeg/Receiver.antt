-- ===== src/Ffmpeg/Receiver.antt =====
-- `cb` and `thread_func` of ffmpeg/receiver.cc. The clock, the streams and the packets that libavformat gives are arguments; its set-up is left out. The counter
-- `pkts` and the time `last` are each one for all threads, so what the other threads have stored in
-- them until this one reads them is an argument, too. The accesses follow each other: what two of them at
-- the same time would do is undefined.
pub mod Results
use rtp_benchmarks.Common.{
  ℕ, zero, suc, ◌+◌, ◌-◌, ◌^◌, ◌≡◌, Bool, true, false, Option, none, some, List, [], ◌∷◌, leb, ◌==◌,
  if◌then◌else◌, u64, add64,
}

-- Whether libavformat is to stop waiting, when the clock shows `now`, in milliseconds.
unfoldable pub cb : ℕ → ℕ → ℕ → Bool
cb pkts last now =
    if pkts == 0 then false else if leb 10 (u64 (now + 2 ^ 64 - last)) then true else false

-- The last stream that is a video, or 0; `i` is the number of the first one.
unfoldable pub find_video : List Bool → ℕ → ℕ → ℕ
find_video [] i video_stream_index = video_stream_index
find_video (is_video ∷ streams) i video_stream_index =
    find_video streams (i + 1) (if is_video then i else video_stream_index)

-- A packet that `av_read_frame` gives, how many packets the other threads have counted since the last
-- one, and the time that is read behind it.
pub record Packet : Type 0 where
  pub stream_index : ℕ
  pub size : ℕ
  pub others : ℕ
  pub received : ℕ

-- `size`, `pkts` and `last`.
pub record ReadState : Type 0 where
  pub total : ℕ
  pub pkts : ℕ
  pub last : ℕ

-- The body of the loop.
unfoldable pub read_packet : ℕ → Packet → ReadState → ReadState
read_packet video_stream_index packet s = record {
  total = if packet.stream_index == video_stream_index then add64 s.total packet.size else s.total;
  pkts = u64 (s.pkts + packet.others + 1);
  last = packet.received;
}

unfoldable pub read_packets : ℕ → List Packet → ReadState → ReadState
read_packets video_stream_index [] s = s
read_packets video_stream_index (packet ∷ packets) s =
    read_packets video_stream_index packets (read_packet video_stream_index packet s)

-- The line that is printed, with or without the word "discard": the size, the packets, the time.
pub data Line : Type 0 where
  result discard : ℕ → ℕ → ℕ → Line

-- What the other threads do behind the last packet of this one: how many packets they count until it
-- compares the counter, and then until it prints it, and the time that they store last, if any.
pub record Others : Type 0 where
  pub before_test : ℕ
  pub before_print : ℕ
  pub last : Option ℕ

unfoldable pub stored_last : Option ℕ → ℕ → ℕ
stored_last none last = last
stored_last (some time) last = time

unfoldable pub print_line : ℕ → Others → ReadState → Line
print_line start others s =
    let tested = u64 (s.pkts + others.before_test) in
    let printed = u64 (tested + others.before_print) in
    let ms = u64 (stored_last others.last s.last + 2 ^ 64 - start) in
    if tested == 598 then result s.total printed ms else discard s.total printed ms

-- The loop and the line, from the state that the globals have at the start.
unfoldable pub thread_func : List Bool → List Packet → Others → ℕ → ℕ → ℕ → Line
thread_func streams packets others pkts last start =
    print_line start others (
      read_packets (find_video streams 0 0) packets
        (record { total = 0; pkts = pkts; last = last }))
