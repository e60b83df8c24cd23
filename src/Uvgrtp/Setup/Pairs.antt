-- ===== src/Uvgrtp/Setup/Pairs.antt =====
-- The two ends of a V-PCC session fit each other.
use rtp_benchmarks.Common.{
  ℕ, ◌≡◌, ◌≢◌, ◌⊎◌, inl, inr, arith, refl, true, false, List, [], ◌∷◌, Option, none, some, ◌==◌,
  if◌then◌else◌, ◌&&◌,
}
use rtp_benchmarks.Uvgrtp.Echo.{Stream}
use rtp_benchmarks.Uvgrtp.Setup.{
  Flag, Setting, SetupCall, create_stream, configure_ctx, add_srtp_ctx, rcc_ssrc, rcc_remote_ssrc,
  rcc_udp_rcv_buf_size, rcc_udp_snd_buf_size, rcc_ring_buffer_size, rcc_pkt_max_delay,
  rcc_poll_timeout, ssrc_calls, buffer_calls, init_v3c_streams,
}

abbrev pub stream_number : Stream → ℕ
stream_number Stream.ad = 0
stream_number Stream.ovd = 1
stream_number Stream.gvd = 2
stream_number Stream.avd = 3

abbrev pub setting_number : Setting → ℕ
setting_number rcc_ssrc = 0
setting_number rcc_remote_ssrc = 1
setting_number rcc_udp_rcv_buf_size = 2
setting_number rcc_udp_snd_buf_size = 3
setting_number rcc_ring_buffer_size = 4
setting_number rcc_pkt_max_delay = 5
setting_number rcc_poll_timeout = 6

abbrev or_later : Option ℕ → Option ℕ → Option ℕ
or_later value none = value
or_later value (some later) = some later

-- The value that a setting of a stream has behind some calls.
abbrev pub value_of : Stream → Setting → List (SetupCall Stream) → Option ℕ
value_of s c [] = none
value_of s c (create_stream t src dst format flags ∷ calls) = value_of s c calls
value_of s c (add_srtp_ctx t key salt ∷ calls) = value_of s c calls
value_of s c (configure_ctx t d value ∷ calls) =
    or_later
      (if stream_number s == stream_number t && setting_number c == setting_number d
        then some value
        else none)
      (value_of s c calls)

-- The number under which an end sends a stream, and the one it expects from the other end.
abbrev pub own_ssrc : Stream → List (SetupCall Stream) → Option ℕ
own_ssrc s calls = value_of s rcc_ssrc calls

abbrev pub expected_ssrc : Stream → List (SetupCall Stream) → Option ℕ
expected_ssrc s calls = value_of s rcc_remote_ssrc calls

apart : (a b : ℕ) → (a == b) ≡ false → some a ≢ some b
apart a b h = λ e. ground arith

-- Whatever the ports and the flags, each end of a session expects each stream under the number under
-- which the other end sends it, and no two streams of an end, which share a socket, have one number.
pub init_v3c_streams-ssrc :
    (src_port dst_port src_port' dst_port' : ℕ) (flags flags' : List Flag) (s t : Stream)
    → (expected_ssrc s (init_v3c_streams src_port dst_port flags true)
        ≡ own_ssrc s (init_v3c_streams src_port' dst_port' flags' false))
      × (expected_ssrc s (init_v3c_streams src_port' dst_port' flags' false)
          ≡ own_ssrc s (init_v3c_streams src_port dst_port flags true))
      × ((stream_number s ≡ stream_number t)
          ⊎ (own_ssrc s (init_v3c_streams src_port dst_port flags true)
              ≢ own_ssrc t (init_v3c_streams src_port dst_port flags true)))
      × ((stream_number s ≡ stream_number t)
          ⊎ (own_ssrc s (init_v3c_streams src_port dst_port flags false)
              ≢ own_ssrc t (init_v3c_streams src_port dst_port flags false)))
unfolding init_v3c_streams ssrc_calls buffer_calls
init_v3c_streams-ssrc p q p' q' f f' Stream.ad Stream.ad = (refl, refl, inl refl, inl refl)
init_v3c_streams-ssrc p q p' q' f f' Stream.ad Stream.ovd =
    (refl, refl, inr (apart 22 33 refl), inr (apart 2 3 refl))
init_v3c_streams-ssrc p q p' q' f f' Stream.ad Stream.gvd =
    (refl, refl, inr (apart 22 44 refl), inr (apart 2 4 refl))
init_v3c_streams-ssrc p q p' q' f f' Stream.ad Stream.avd =
    (refl, refl, inr (apart 22 55 refl), inr (apart 2 5 refl))
init_v3c_streams-ssrc p q p' q' f f' Stream.ovd Stream.ad =
    (refl, refl, inr (apart 33 22 refl), inr (apart 3 2 refl))
init_v3c_streams-ssrc p q p' q' f f' Stream.ovd Stream.ovd = (refl, refl, inl refl, inl refl)
init_v3c_streams-ssrc p q p' q' f f' Stream.ovd Stream.gvd =
    (refl, refl, inr (apart 33 44 refl), inr (apart 3 4 refl))
init_v3c_streams-ssrc p q p' q' f f' Stream.ovd Stream.avd =
    (refl, refl, inr (apart 33 55 refl), inr (apart 3 5 refl))
init_v3c_streams-ssrc p q p' q' f f' Stream.gvd Stream.ad =
    (refl, refl, inr (apart 44 22 refl), inr (apart 4 2 refl))
init_v3c_streams-ssrc p q p' q' f f' Stream.gvd Stream.ovd =
    (refl, refl, inr (apart 44 33 refl), inr (apart 4 3 refl))
init_v3c_streams-ssrc p q p' q' f f' Stream.gvd Stream.gvd = (refl, refl, inl refl, inl refl)
init_v3c_streams-ssrc p q p' q' f f' Stream.gvd Stream.avd =
    (refl, refl, inr (apart 44 55 refl), inr (apart 4 5 refl))
init_v3c_streams-ssrc p q p' q' f f' Stream.avd Stream.ad =
    (refl, refl, inr (apart 55 22 refl), inr (apart 5 2 refl))
init_v3c_streams-ssrc p q p' q' f f' Stream.avd Stream.ovd =
    (refl, refl, inr (apart 55 33 refl), inr (apart 5 3 refl))
init_v3c_streams-ssrc p q p' q' f f' Stream.avd Stream.gvd =
    (refl, refl, inr (apart 55 44 refl), inr (apart 5 4 refl))
init_v3c_streams-ssrc p q p' q' f f' Stream.avd Stream.avd = (refl, refl, inl refl, inl refl)
