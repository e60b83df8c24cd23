-- ===== src/Uvgrtp/AtlasSender.antt =====
-- `sender_func` of uvgrtp/sender.cc: the thread that sends the NAL units of an atlas stream, without
-- those that carry no atlas tile. The answers to `push_frame`, by the number of the frame, the clock
-- and the period are arguments.
pub mod Sends
use rtp_benchmarks.Common.{
  ℕ, ◌+◌, ◌/◌, Bool, true, false, List, [], ◌∷◌, Result, ok, ◌>>=◌, leb, if◌then◌else◌, u8, u64,
  add64, bit_and,
}
use rtp_benchmarks.V3c.Types.{NalInfo, V3cUnitInfo, load, load_bytes}
use rtp_benchmarks.Uvgrtp.Sender.{Event, write_send_results, after_push}

-- `nalu_t >= 30`, for the first byte of the NAL unit.
unfoldable pub is_skipped : ℕ → Bool
is_skipped b = leb 30 (u8 (bit_and (b / 2) 0x3f))

module _ (push : ℕ → Bool) (now : ℕ → ℕ) (period : ℕ) (cbuf : List ℕ) where
  -- The body of the inner loop; the last argument is what the loops do behind this NAL unit, for the
  -- bytes sent and the current frame.
  pub send_atlas_nal : NalInfo → ℕ → ℕ → (ℕ → ℕ → Result (List Event)) → Result (List Event)
  send_atlas_nal i bytes_sent current_frame rest = load cbuf i.location >>= (λ b.
      if is_skipped b
      then rest bytes_sent current_frame
      else (load_bytes cbuf i.location i.size >>= (λ payload.
          after_push push now period cbuf (push current_frame) payload current_frame
            (rest (add64 bytes_sent i.size) (u64 (current_frame + 1))))))

  -- The inner loop, in front of the units that follow.
  pub send_atlas_nals : List NalInfo → (ℕ → ℕ → Result (List Event)) → ℕ → ℕ → Result (List Event)
  send_atlas_nals [] units bytes_sent current_frame = units bytes_sent current_frame
  send_atlas_nals (i ∷ rest) units bytes_sent current_frame =
      send_atlas_nal i bytes_sent current_frame (send_atlas_nals rest units)

  pub send_atlas_units : List V3cUnitInfo → ℕ → ℕ → Result (List Event)
  send_atlas_units [] bytes_sent current_frame = ok (write_send_results bytes_sent ∷ [])
  send_atlas_units (u ∷ rest) bytes_sent current_frame =
      send_atlas_nals u.nal_infos (send_atlas_units rest) bytes_sent current_frame

  pub atlas_sender_func : List V3cUnitInfo → Result (List Event)
  atlas_sender_func units = send_atlas_units units 0 0
