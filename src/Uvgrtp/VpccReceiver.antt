-- ===== src/Uvgrtp/VpccReceiver.antt =====
-- The `hook` of uvgrtp/vpcc_receiver.cc, which uvgRTP calls for each frame of a stream, and the time
-- points of uvgrtp/uvgrtp_util.hh that the results are made of. The clock is an argument.
pub mod Rounds
pub mod Totals
use rtp_benchmarks.Common.{
  ℕ, ◌+◌, ◌^◌, ◌<◌, ◌≡◌, refl, ap, Bool, true, false, ◌∙◌, List, [], ◌∷◌, Option, none, some, arith,
  length, ◌==◌, if◌then◌else◌, add64, min, max,
}

pub record StreamResults : Type 0 where
  pub packets_received : ℕ
  pub bytes_received : ℕ
  pub start : ℕ
  pub last : ℕ

abbrev pub no_results : StreamResults
no_results = record { packets_received = 0; bytes_received = 0; start = 0; last = 0 }

-- One call: the first time that it reads, the payload's length, or none for a null pointer, and the
-- second time.
pub record Call : Type 0 where
  pub entered : ℕ
  pub payload_len : Option ℕ
  pub received : ℕ

-- The first `if`.
pub note_start : ℕ → StreamResults → StreamResults
note_start now results =
    if results.packets_received == 0 then record results { start = now } else results

-- What follows it, with the flag `frame_received`.
pub note_frame : Option ℕ → ℕ → StreamResults → Bool → StreamResults × Bool
note_frame none now results frame_received = (results, frame_received)
note_frame (some payload_len) now results frame_received = (
  record results {
    last = now;
    bytes_received = add64 results.bytes_received payload_len;
    packets_received = add64 results.packets_received 1;
  },
  true,
)

pub hook : Call → StreamResults → Bool → StreamResults × Bool
hook call results frame_received =
    note_frame call.payload_len call.received (note_start call.entered results) frame_received

unfoldable pub find_earliest_time_point : ℕ → ℕ → ℕ → ℕ → ℕ
find_earliest_time_point t1 t2 t3 t4 = min (min (min t1 t2) t3) t4

unfoldable pub find_latest_time_point : ℕ → ℕ → ℕ → ℕ → ℕ
find_latest_time_point t1 t2 t3 t4 = max (max (max t1 t2) t3) t4

-- A stream, one call after the other.
pub hooks : List Call → StreamResults → Bool → StreamResults × Bool
hooks [] results frame_received = (results, frame_received)
hooks (call ∷ calls) results frame_received =
    let (results', flag) = hook call results frame_received in hooks calls results' flag

abbrev pub a_frame : ℕ → ℕ → ℕ → Call
a_frame entered len received = record {
  entered = entered;
  payload_len = some len;
  received = received;
}

-- The frames of a stream, each with its two times.
abbrev pub frame_calls : List (ℕ × ℕ × ℕ) → List Call
frame_calls [] = []
frame_calls ((e, n, r) ∷ fs) = a_frame e n r ∷ frame_calls fs

abbrev pub total_len : List (ℕ × ℕ × ℕ) → ℕ
total_len [] = 0
total_len ((e, n, r) ∷ fs) = n + total_len fs

abbrev pub last_time : ℕ → List (ℕ × ℕ × ℕ) → ℕ
last_time t [] = t
last_time t ((e, n, r) ∷ fs) = last_time r fs

note_start-later : (now : ℕ) (s : StreamResults) → 0 < s.packets_received → note_start now s ≡ s
unfolding note_start
note_start-later now s h = let e : (s.packets_received == 0) ≡ false = ground arith in rw e refl

hooks-frame_calls :
    (fs : List (ℕ × ℕ × ℕ)) (s : StreamResults)
    → 0 < s.packets_received
    → s.packets_received + length fs < 2 ^ 64
    → s.bytes_received + total_len fs < 2 ^ 64
    → hooks (frame_calls fs) s true ≡ (
      record {
        packets_received = s.packets_received + length fs;
        bytes_received = s.bytes_received + total_len fs;
        start = s.start;
        last = last_time s.last fs;
      },
      true,
    )
unfolding hooks hook note_frame
hooks-frame_calls [] s h k l = ground arith
hooks-frame_calls ((e, n, r) ∷ fs) s h k l =
    let next : (StreamResults → StreamResults) = λ x. record {
      packets_received = add64 x.packets_received 1;
      bytes_received = add64 x.bytes_received n;
      start = x.start;
      last = r;
    } in
    ap (λ x. hooks (frame_calls fs) (next x) true) (note_start-later e s h)
    ∙ hooks-frame_calls fs (next s) (omega arith) (omega arith) (omega arith)
    ∙ ground arith

-- After the first frame of a stream and any more of them, the results are the number of the frames,
-- the sum of their payloads, the time at which the first was noticed and the time of the last, and
-- `frame_received` is set.
pub hooks-no_results :
    (e n r : ℕ) (fs : List (ℕ × ℕ × ℕ)) (frame_received : Bool)
    → 1 + length fs < 2 ^ 64
    → n + total_len fs < 2 ^ 64
    → hooks (frame_calls ((e, n, r) ∷ fs)) no_results frame_received ≡ (
      record {
        packets_received = 1 + length fs;
        bytes_received = n + total_len fs;
        start = e;
        last = last_time r fs;
      },
      true,
    )
unfolding hooks hook note_start note_frame
hooks-no_results e n r fs frame_received k l =
    let first : StreamResults = record {
      packets_received = 1;
      bytes_received = add64 0 n;
      start = e;
      last = r;
    } in
    hooks-frame_calls fs first (omega arith) (omega arith) (omega arith) ∙ ground arith
