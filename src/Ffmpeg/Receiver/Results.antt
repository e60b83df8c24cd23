-- ===== src/Ffmpeg/Receiver/Results.antt =====
-- What the threads of ffmpeg/receiver.cc print.
use rtp_benchmarks.Common.{
  ℕ, ◌+◌, ◌-◌, ◌^◌, ◌≤◌, ◌<◌, ◌≡◌, refl, ◌∙◌, Bool, true, false, Option, none, some, List, [], ◌∷◌,
  ◌++◌, arith, All, length, ◌==◌, if◌then◌else◌, u64,
}
use rtp_benchmarks.Ffmpeg.Receiver.{
  find_video, Packet, ReadState, read_packet, read_packets, Line, result, discard, Others,
  stored_last, print_line, thread_func,
}

-- The bytes of the packets of one stream.
abbrev pub stream_bytes : ℕ → List Packet → ℕ
stream_bytes index [] = 0
stream_bytes index (p ∷ ps) =
    (if p.stream_index == index then p.size else 0) + stream_bytes index ps

-- The packets of this thread and of the others.
abbrev pub counted : List Packet → ℕ
counted [] = 0
counted (p ∷ ps) = p.others + 1 + counted ps

abbrev pub last_time : List Packet → ℕ → ℕ
last_time [] last = last
last_time (p ∷ ps) last = last_time ps p.received

read_packets_lem :
    (index : ℕ) (ps : List Packet) (s : ReadState)
    → s.total + stream_bytes index ps < 2 ^ 64
    → s.pkts + counted ps < 2 ^ 64
    → read_packets index ps s ≡ record {
      total = s.total + stream_bytes index ps;
      pkts = s.pkts + counted ps;
      last = last_time ps s.last;
    }
unfolding read_packets read_packet
read_packets_lem index [] s h k =
    let e1 : s.total + 0 ≡ s.total = omega arith in
    let e2 : s.pkts + 0 ≡ s.pkts = omega arith in rw (e1, e2) refl
read_packets_lem index (p ∷ ps) s h k =
    let next = read_packet index p s in
    let total : next.total ≡ s.total + (if p.stream_index == index then p.size else 0) =
      ground arith in
    let count : next.pkts ≡ s.pkts + p.others + 1 = omega arith in
    let e1 : next.total + stream_bytes index ps ≡ s.total + stream_bytes index (p ∷ ps) =
      omega arith in
    let e2 : next.pkts + counted ps ≡ s.pkts + counted (p ∷ ps) = omega arith in
    read_packets_lem index ps next (omega arith) (omega arith) ∙ rw (e1, e2) refl

-- The index that the search leaves is that of the last video stream.
no_video : (vs : List Bool) (j k : ℕ) → All (λ v. v ≡ false) vs → find_video vs j k ≡ k
unfolding find_video
no_video [] j k a = refl
no_video (v ∷ vs) j k (h, a) = rw h (no_video vs (j + 1) k a)

find_video-last :
    (before after : List Bool) (i index : ℕ)
    → All (λ v. v ≡ false) after
    → find_video (before ++ (true ∷ after)) i index ≡ i + length before
unfolding find_video
find_video-last [] after i index a = no_video after (i + 1) i a ∙ (omega arith)
find_video-last (v ∷ before) after i index a =
    find_video-last before after (i + 1) (if v then i else index) a ∙ (omega arith)

-- The line of a run that has counted so much at the comparison, and then prints so much.
abbrev pub line_of : ℕ → ℕ → ℕ → ℕ → Line
line_of tested total pkts ms = if tested == 598 then result total pkts ms else discard total pkts ms

-- The last time that any thread has stored.
abbrev pub stored : List Packet → ℕ → Option ℕ → ℕ
stored ps last none = last_time ps last
stored ps last (some time) = time

stored_last_lem :
    (ps : List Packet) (last : ℕ) (o : Option ℕ)
    → stored_last o (last_time ps last) ≡ stored ps last o
unfolding stored_last
stored_last_lem ps last none = refl
stored_last_lem ps last (some time) = refl

-- When the input has a video stream, a thread that starts with the counter at 0 prints the number of
-- bytes of the packets of the last such stream, the number of all packets that it and the other
-- threads have counted by then, and the time from its start to the last packet of any of them; the
-- line is discarded unless all of them have counted 598 packets when it compares, also when it has
-- itself received 598 packets and another thread any.
pub thread_func-line_of :
    (before after : List Bool) (packets : List Packet) (others : Others) (last start : ℕ)
    → All (λ v. v ≡ false) after
    → stream_bytes (length before) packets < 2 ^ 64
    → counted packets + others.before_test + others.before_print < 2 ^ 64
    → start ≤ stored packets last others.last
    → stored packets last others.last < 2 ^ 64
    → thread_func (before ++ (true ∷ after)) packets others 0 last start
      ≡ line_of
          (counted packets + others.before_test)
          (stream_bytes (length before) packets)
          (counted packets + others.before_test + others.before_print)
          (stored packets last others.last - start)
unfolding thread_func print_line
thread_func-line_of before after packets others last start a h k lo hi =
    let index : find_video (before ++ (true ∷ after)) 0 0 ≡ length before =
      find_video-last before after 0 0 a ∙ (omega arith) in
    let run =
      read_packets_lem (length before) packets (record { total = 0; pkts = 0; last = last })
        (omega arith) (omega arith) in
    let z1 : 0 + stream_bytes (length before) packets ≡ stream_bytes (length before) packets =
      omega arith in
    let z2 : 0 + counted packets ≡ counted packets = omega arith in
    let tested : u64 (counted packets + others.before_test) ≡ counted packets + others.before_test =
      omega arith in
    let printed : u64 (counted packets + others.before_test + others.before_print)
        ≡ counted packets + others.before_test + others.before_print =
      omega arith in
    let ms : u64 (stored packets last others.last + 2 ^ 64 - start)
        ≡ stored packets last others.last - start =
      omega arith in
    rw (index, run, z1, z2, stored_last_lem packets last others.last, tested, printed, ms) refl
