-- ===== src/Uvgrtp/VpccLatencySender.antt =====
-- uvgrtp/vpcc_latency_sender.cc: the sender of the V-PCC latency benchmark logs when it sends a NAL
-- unit and when the receiver has sent it back, for each of the four streams, and adds up how long
-- the full frames took. The clock, the period and the returned frames are arguments, and so are the
-- operations on floats.
pub mod Sends
pub mod Returns
pub mod Totals
use rtp_benchmarks.Common.{
  ℕ, zero, suc, ◌+◌, ◌*◌, ◌/◌, ◌≡◌, Bool, true, false, ◌||◌, ◌&&◌, List, [], ◌∷◌, ◌++◌, Option,
  none, some, Result, ok, ◌>>=◌, ltb, leb, ◌==◌, if◌then◌else◌, u8, u64, length, bit_and, not,
}
use rtp_benchmarks.V3c.Types.{
  NalInfo, V3cUnitInfo, V3cFileMap, load, load_bytes, at, v3c_ad, v3c_ovd, v3c_gvd, v3c_avd,
}
use rtp_benchmarks.Uvgrtp.Sender.{Event, push_frame, pace}
use rtp_benchmarks.Uvgrtp.VpccSender.{is_param_set}
use rtp_benchmarks.Uvgrtp.VpccReceiver.{find_earliest_time_point, find_latest_time_point}

-- The times of the four streams: `ad_recv` and so on, and `ad_send` and so on.
pub record StreamTimes : Type 0 where
  pub ad : List ℕ
  pub ovd : List ℕ
  pub gvd : List ℕ
  pub avd : List ℕ

-- The type of the NAL unit with this first byte.
unfoldable pub nal_type_of : ℕ → ℕ
nal_type_of b = u8 (bit_and (b / 2) 0x3f)

-- One returned frame: the time at which it is noticed, and its payload.
pub ad_hook : ℕ × List ℕ → List ℕ → Result (List ℕ)
ad_hook (now, payload) ad_recv = do
  b ← load payload 0
  ok (if ltb (nal_type_of b) 36 then ad_recv ++ now ∷ [] else ad_recv)

-- `ovd_hook`, `gvd_hook` and `avd_hook` are alike, each with its own vector.
pub video_hook : ℕ × List ℕ → List ℕ → Result (List ℕ)
video_hook (now, payload) recv = do
  b ← load payload 0
  ok (if ltb (nal_type_of b) 32 || ltb 34 (nal_type_of b) then recv ++ now ∷ [] else recv)

-- The hook that `sender` installs on the stream of the format `fmt`.
unfoldable pub hook_of : ℕ → ℕ × List ℕ → List ℕ → Result (List ℕ)
hook_of fmt call recv = if fmt == v3c_ad then ad_hook call recv else video_hook call recv

-- The frames that come back on one stream.
pub receive_all : ℕ → List (ℕ × List ℕ) → List ℕ → Result (List ℕ)
receive_all fmt [] recv = ok recv
receive_all fmt (call ∷ calls) recv = do recv' ← hook_of fmt call recv; receive_all fmt calls recv'

-- The locals of `sender_func` that change, and the vector that it logs to.
pub record SendState : Type 0 where
  pub temp_nalu : ℕ
  pub current_frame : ℕ
  pub send_times : List ℕ

-- `if(!param_set) send_times.push_back(...)`.
pub log_time : Bool → ℕ → SendState → SendState
log_time true now s = s
log_time false now s = record s { send_times = s.send_times ++ now ∷ [] }

-- What follows the push of a NAL unit that is no parameter set.
pub end_nal : ℕ → ℕ → ℕ → SendState → List Event × SendState
end_nal fmt period runtime s =
    let nals = u64 (s.temp_nalu + 1) in
    let frames = u64 (s.current_frame + 1) in
    if fmt == v3c_gvd || fmt == v3c_avd
    then (if ltb nals 4
        then ([], record s { temp_nalu = nals })
        else (pace period frames runtime, record s { temp_nalu = 0; current_frame = frames }))
    else (pace period frames runtime, record s { temp_nalu = 0; current_frame = frames })

pub after_send : Bool → ℕ → ℕ → ℕ → SendState → List Event × SendState
after_send true fmt period runtime s = ([], s)
after_send false fmt period runtime s = end_nal fmt period runtime s

-- `now n` is the time and `runtime n` the time since the start that the thread reads when it has
-- logged `n` times. Both are read for the NAL units only that are no parameter sets.
module _ (cbuf : List ℕ) (fmt : ℕ) (now runtime : ℕ → ℕ) (period : ℕ) where
  pub latency_nal : NalInfo → SendState → Result (List Event × SendState)
  latency_nal i s = do
    b ← load cbuf i.location
    payload ← load_bytes cbuf i.location i.size
    let param_set = is_param_set fmt b in
        let logged = log_time param_set (now (length s.send_times)) s in
        let (waits, next) =
          after_send param_set fmt period (runtime (length logged.send_times)) logged in
        ok (push_frame payload ∷ waits, next)

  pub latency_nals : List NalInfo → SendState → Result (List Event × SendState)
  latency_nals [] s = ok ([], s)
  latency_nals (i ∷ rest) s = do
    (first, next) ← latency_nal i s
    (events, last) ← latency_nals rest next
    ok (first ++ events, last)

  pub latency_units : List V3cUnitInfo → SendState → Result (List Event × SendState)
  latency_units [] s = ok ([], s)
  latency_units (u ∷ rest) s = do
    (first, next) ← latency_nals u.nal_infos s
    (events, last) ← latency_units rest next
    ok (first ++ events, last)

  -- What is sent, and what is then in `send_times`, which starts empty.
  pub latency_sender_func : List V3cUnitInfo → Result (List Event × List ℕ)
  latency_sender_func units = do
    (events, last) ←
        latency_units units (record { temp_nalu = 0; current_frame = 0; send_times = [] })
    ok (events, last.send_times)

-- Whether all frames have come back.
unfoldable pub no_loss : StreamTimes → StreamTimes → Bool
no_loss send recv =
    length send.ad == length recv.ad
    && length send.ovd == length recv.ovd
    && length send.gvd == length recv.gvd
    && length send.avd == length recv.avd

-- When the full frame number `i` was sent, and when it was received.
unfoldable pub full_frame_send_time : StreamTimes → ℕ → Result ℕ
full_frame_send_time send i = do
  ad ← at send.ad i
  ovd ← at send.ovd i
  gvd ← at send.gvd (i * 4)
  avd ← at send.avd (i * 4)
  ok (find_earliest_time_point ad ovd gvd avd)

unfoldable pub full_frame_recv_time : StreamTimes → ℕ → Result ℕ
full_frame_recv_time recv i = do
  ad ← at recv.ad i
  ovd ← at recv.ovd i
  gvd ← at recv.gvd (i * 4)
  avd ← at recv.avd (i * 4)
  ok (find_latest_time_point ad ovd gvd avd)

-- `none` for the report of zeros after a loss, else the number of full frames and the average.
-- `add_diff t r s` is `t + (r - s)`, and `average t n` is `t / 1000 / n`, on floats. The number of
-- full frames is an `int` in the source; it is taken to be below 2 ^ 31.
module _ {F : Type 0} (float_zero : F) (add_diff : F → ℕ → ℕ → F) (average : F → ℕ → F) where
  -- `n` more rounds from the frame number `i`.
  pub add_frames : StreamTimes → StreamTimes → ℕ → ℕ → F → Result F
  add_frames send recv zero i total_time = ok total_time
  add_frames send recv (suc n) i total_time = do
    sent ← full_frame_send_time send i
    received ← full_frame_recv_time recv i
    add_frames send recv n (i + 1) (add_diff total_time received sent)

  pub latency_report : StreamTimes → StreamTimes → Result (Option (ℕ × F))
  latency_report send recv =
      let full_frames = length send.ad in
      if no_loss send recv
      then (add_frames send recv full_frames 0 float_zero
          >>= (λ total_time. ok (some (full_frames, average total_time full_frames))))
      else ok none
