-- ===== src/Ffmpeg/LatencySender.antt =====
-- The two threads of ffmpeg/latency_sender.cc: `sender` writes a packet for each chunk and notes the
-- time, and `receiver` takes the oldest time for each packet that comes back. The clock and the
-- packets are arguments; what libavformat does with a packet is left out.
pub mod Packets
use rtp_benchmarks.Common.{
  ℕ, ◌+◌, ◌-◌, ◌*◌, ◌/◌, ◌≡◌, Bool, true, false, List, [], ◌∷◌, ◌++◌, Result, ok, err, Fault, ◌>>=◌,
  ltb, leb, ◌==◌, ◌||◌, if◌then◌else◌, u8, u32, u64, add64, bit_and, length,
}
use rtp_benchmarks.V3c.Types.{load, load_bytes}
use rtp_benchmarks.Uvgrtp.Sender.{Event, push_frame, pace}

-- The locals of `sender`, the keys of `timestamps`, `timestamps2` and `ff_key`.
pub record PacketState : Type 0 where
  pub offset : ℕ
  pub current_frame : ℕ
  pub keys : List ℕ
  pub timestamps2 : List ℕ
  pub ff_key : ℕ

abbrev pub first_packet : PacketState
first_packet = record { offset = 0; current_frame = 0; keys = []; timestamps2 = []; ff_key = 0 }

-- `timestamps.find(key) != timestamps.end()`.
unfoldable pub has_key : ℕ → List ℕ → Bool
has_key key [] = false
has_key key (k ∷ ks) = (k == key) || has_key key ks

unfoldable pub note_first : ℕ → PacketState → PacketState
note_first chunk_size s = if s.offset == 0 then record s { ff_key = chunk_size } else s

-- `now n` is the time that is read before packet `n`, and `runtime n` the time since the start that is
-- read behind it. A packet that is written is the event `push_frame`. It has an `int` for its size: a
-- chunk of 2 ^ 31 bytes or more is not modelled as the code has it.
module _ (now runtime : ℕ → ℕ) (period : ℕ) (mem : List ℕ) where
  unfoldable pub write_packet : Bool → ℕ → PacketState → Result (List Event × PacketState)
  write_packet true chunk_size s = ok ([], s)
  write_packet false chunk_size s = do
    payload ← load_bytes mem s.offset (u32 chunk_size)
    let next = u64 (s.current_frame + 1) in
        ok (
          push_frame payload ∷ pace period next (runtime s.current_frame),
          record s {
            offset = add64 s.offset chunk_size;
            current_frame = next;
            keys = chunk_size ∷ s.keys;
            timestamps2 = s.timestamps2 ++ now s.current_frame ∷ [];
          },
        )

  unfoldable pub packet_round : ℕ → PacketState → Result (List Event × PacketState)
  packet_round chunk_size s =
      write_packet (has_key chunk_size s.keys) chunk_size (note_first chunk_size s)

  pub packet_loop : List ℕ → PacketState → Result (List Event × PacketState)
  packet_loop [] s = ok ([], s)
  packet_loop (chunk_size ∷ rest) s = do
    (first, s1) ← packet_round chunk_size s
    (more, s2) ← packet_loop rest s1
    ok (first ++ more, s2)

-- The locals of `receiver`.
pub record PacketTotals : Type 0 where
  pub frame_total : ℕ
  pub intra_total : ℕ
  pub inter_total : ℕ
  pub frames : ℕ
  pub intras : ℕ
  pub inters : ℕ

unfoldable pub count_packet : ℕ → ℕ → PacketTotals → PacketTotals
count_packet b diff s =
    let nal_type = u8 (bit_and (b / 2) 0x3f) in
    if nal_type == 19
    then record s { intra_total = add64 s.intra_total (diff / 1000); intras = add64 s.intras 1 }
    else if nal_type == 1
    then record s { inter_total = add64 s.inter_total (diff / 1000); inters = add64 s.inters 1 }
    else s

-- The last `if`: whether the loop goes on.
unfoldable pub end_packet : ℕ → PacketTotals → PacketTotals × Bool
end_packet diff s =
    let frames' = add64 s.frames 1 in
    if ltb frames' 596
    then (record s { frames = frames'; frame_total = add64 s.frame_total (diff / 1000) }, true)
    else (record s { frames = frames' }, false)

-- For each packet the time at which it is noticed and its bytes; the first list is `timestamps2`,
-- whose front is read and dropped, also when it is empty.
pub receive_loop : List ℕ → List (ℕ × List ℕ) → PacketTotals → Result PacketTotals
receive_loop times [] s = ok s
receive_loop [] ((received, payload) ∷ rest) s = err Fault.bad_access
receive_loop (sent ∷ times) ((received, payload) ∷ rest) s = load payload 3 >>= (λ b.
    receive_on (receive_loop times rest)
      (end_packet (received - sent) (count_packet b (received - sent) s)))
  where
    receive_on : (PacketTotals → Result PacketTotals) → PacketTotals × Bool → Result PacketTotals
    receive_on more (t, true) = more t
    receive_on more (t, false) = ok t
