-- ===== src/Uvgrtp/Sender.antt =====
-- `sender_thread` of uvgrtp/sender.cc: one `push_frame` for each chunk size, and a wait after it. The
-- library's answers to `push_frame`, the clock and the period in microseconds (a computation on
-- doubles) are arguments. The set-up and the clean-up of the session are left out, and of the
-- result only the number of bytes is kept.
pub mod Sends
pub mod Encoded
use rtp_benchmarks.Common.{
  ℕ, zero, suc, ◌+◌, ◌*◌, ◌-◌, ◌^◌, ◌≤◌, ◌<◌, ◌≡◌, refl, sym, ap, ◌∙◌, Bool, true, false, List, [],
  ◌∷◌, ◌++◌, append-nil, append_assoc, map, Result, ok, ◌>>=◌, arith, All, length, length-append,
  drop, take, drop-drop, take-append_left, drop-append_left, ltb, leb, le→leb, if◌then◌else◌, u64,
  add64,
}
use rtp_benchmarks.V3c.Types.{load_bytes}
use rtp_benchmarks.Util.Chunks.{get_chunk_sizes}
use rtp_benchmarks.Util.Files.{concat}

-- What the thread does to the outside, in order; a sleep is in microseconds.
pub data Event : Type 0 where
  push_frame : List ℕ → Event
  sleep_for : ℕ → Event
  write_send_results : ℕ → Event

-- The wait until frame `current_frame` may follow, when the clock shows `runtime`.
unfoldable pub pace : ℕ → ℕ → ℕ → List Event
pace period current_frame runtime =
    if ltb runtime (u64 (current_frame * period))
    then sleep_for (u64 (current_frame * period) - runtime) ∷ []
    else []

-- `push n` tells whether the push of the frame number `n` answers `RTP_OK`, and `now n` is the
-- runtime that is read after it.
module _ (push : ℕ → Bool) (now : ℕ → ℕ) (period : ℕ) (mem : List ℕ) where
  -- One round on a payload, with the answer to its push, before what the other rounds do.
  unfoldable pub after_push : Bool → List ℕ → ℕ → Result (List Event) → Result (List Event)
  after_push false payload current_frame rest = ok (push_frame payload ∷ sleep_for 500000 ∷ [])
  after_push true payload current_frame rest = do
    events ← rest
    ok (push_frame payload ∷ (pace period (u64 (current_frame + 1)) (now current_frame) ++ events))

  unfoldable pub sender_loop : List ℕ → ℕ → ℕ → Result (List Event)
  sender_loop [] bytes_sent current_frame = ok (write_send_results bytes_sent ∷ [])
  sender_loop (chunk_size ∷ chunk_sizes) bytes_sent current_frame =
      load_bytes mem bytes_sent chunk_size >>= (λ payload.
        after_push (push current_frame) payload current_frame
          (sender_loop chunk_sizes (add64 bytes_sent chunk_size) (u64 (current_frame + 1))))

  unfoldable pub sender_thread : List ℕ → Result (List Event)
  sender_thread chunk_sizes = sender_loop chunk_sizes 0 0
