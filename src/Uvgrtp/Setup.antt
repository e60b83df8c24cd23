-- ===== src/Uvgrtp/Setup.antt =====
-- The set-up of the streams: `init_v3c_streams` of uvgrtp/v3c_util.cc and `intialize_uvgrtp` of
-- uvgrtp/uvgrtp_util.hh, as the calls of uvgRTP that they make, in order. The flags and the settings
-- are uvgRTP's names. The commented-out set-up without multiplexing is left out.
pub mod Pairs
use rtp_benchmarks.Common.{
  ℕ, zero, suc, ◌+◌, ◌*◌, Bool, true, false, List, [], ◌∷◌, ◌++◌, if◌then◌else◌, replicate, set, u8,
}
use rtp_benchmarks.Uvgrtp.Echo.{Stream}

pub data Flag : Type 0 where
  rce_no_h26x_prepend_sc rce_pace_fragment_sending rce_srtp rce_srtp_kmngmnt_user : Flag

pub data RtpFormat : Type 0 where
  rtp_format_atlas rtp_format_h265 rtp_format_h266 : RtpFormat

pub data Setting : Type 0 where
  rcc_ssrc rcc_remote_ssrc rcc_udp_rcv_buf_size rcc_udp_snd_buf_size rcc_ring_buffer_size
        rcc_pkt_max_delay rcc_poll_timeout :
      Setting

-- The calls on a stream of the type `S` of names.
pub data SetupCall (S : Type 0) : Type 0 where
  create_stream : S → ℕ → ℕ → RtpFormat → List Flag → SetupCall S
  configure_ctx : S → Setting → ℕ → SetupCall S
  add_srtp_ctx : S → List ℕ → List ℕ → SetupCall S

abbrev pub forty_mb : ℕ
forty_mb = 40 * 1000 * 1000

-- The last `if`: the numbers of a receiver, or those of a sender.
unfoldable pub ssrc_calls : Bool → List (SetupCall Stream)
ssrc_calls true =
    configure_ctx Stream.ad rcc_remote_ssrc 2
    ∷ configure_ctx Stream.ovd rcc_remote_ssrc 3
    ∷ configure_ctx Stream.gvd rcc_remote_ssrc 4
    ∷ configure_ctx Stream.avd rcc_remote_ssrc 5
    ∷ configure_ctx Stream.ad rcc_ssrc 22
    ∷ configure_ctx Stream.ovd rcc_ssrc 33
    ∷ configure_ctx Stream.gvd rcc_ssrc 44
    ∷ configure_ctx Stream.avd rcc_ssrc 55
    ∷ []
ssrc_calls false =
    configure_ctx Stream.ad rcc_ssrc 2
    ∷ configure_ctx Stream.ovd rcc_ssrc 3
    ∷ configure_ctx Stream.gvd rcc_ssrc 4
    ∷ configure_ctx Stream.avd rcc_ssrc 5
    ∷ configure_ctx Stream.ad rcc_remote_ssrc 22
    ∷ configure_ctx Stream.ovd rcc_remote_ssrc 33
    ∷ configure_ctx Stream.gvd rcc_remote_ssrc 44
    ∷ configure_ctx Stream.avd rcc_remote_ssrc 55
    ∷ []

unfoldable pub buffer_calls : List (SetupCall Stream)
buffer_calls =
    configure_ctx Stream.gvd rcc_udp_rcv_buf_size forty_mb
    ∷ configure_ctx Stream.avd rcc_udp_rcv_buf_size forty_mb
    ∷ configure_ctx Stream.gvd rcc_udp_snd_buf_size forty_mb
    ∷ configure_ctx Stream.avd rcc_udp_snd_buf_size forty_mb
    ∷ configure_ctx Stream.gvd rcc_ring_buffer_size forty_mb
    ∷ configure_ctx Stream.avd rcc_ring_buffer_size forty_mb
    ∷ configure_ctx Stream.gvd rcc_pkt_max_delay 1000
    ∷ configure_ctx Stream.avd rcc_pkt_max_delay 1000
    ∷ []

unfoldable pub init_v3c_streams : ℕ → ℕ → List Flag → Bool → List (SetupCall Stream)
init_v3c_streams src_port dst_port flags rec =
    let all_flags = rce_no_h26x_prepend_sc ∷ flags in
    create_stream Stream.ad src_port dst_port rtp_format_atlas all_flags
    ∷ create_stream Stream.ovd src_port dst_port rtp_format_h265 all_flags
    ∷ create_stream Stream.gvd src_port dst_port rtp_format_h265 all_flags
    ∷ create_stream Stream.avd src_port dst_port rtp_format_h265 all_flags
    ∷ (buffer_calls ++ ssrc_calls rec)

-- `for (int i = 0; ...; ++i) key[i] = i + start`, for `n` more rounds from `i` on.
unfoldable pub fill_key : ℕ → ℕ → ℕ → List ℕ → List ℕ
fill_key zero i start key = key
fill_key (suc n) i start key = fill_key n (i + 1) start (set key i (u8 (i + start)))

-- The name of the one stream.
pub data Single : Type 0 where
  m_stream : Single

-- Both loops fill the key.
unfoldable pub srtp_calls : Bool → List (SetupCall Single)
srtp_calls false = []
srtp_calls true =
    let key = fill_key 14 0 13 (fill_key 16 0 7 (replicate 16 0)) in
    add_srtp_ctx m_stream key (replicate 14 0) ∷ []

unfoldable pub stream_format : Bool → Bool → RtpFormat
stream_format vvc atlas =
    if atlas then rtp_format_atlas else if vvc then rtp_format_h266 else rtp_format_h265

unfoldable pub stream_flags : Bool → Bool → List Flag
stream_flags srtp optimize_latency =
    (if optimize_latency then [] else rce_pace_fragment_sending ∷ [])
    ++ (if srtp then rce_srtp ∷ rce_srtp_kmngmnt_user ∷ [] else [])

unfoldable pub intialize_uvgrtp : ℕ → ℕ → Bool → Bool → Bool → Bool → List (SetupCall Single)
intialize_uvgrtp local_port remote_port srtp vvc optimize_latency atlas =
    create_stream m_stream local_port remote_port (stream_format vvc atlas)
      (stream_flags srtp optimize_latency)
    ∷ (srtp_calls srtp
        ++ configure_ctx m_stream rcc_udp_rcv_buf_size forty_mb
          ∷ configure_ctx m_stream rcc_ring_buffer_size forty_mb
          ∷ configure_ctx m_stream rcc_udp_snd_buf_size forty_mb
          ∷ configure_ctx m_stream rcc_pkt_max_delay 1000
          ∷ configure_ctx m_stream rcc_poll_timeout 1000
          ∷ [])
