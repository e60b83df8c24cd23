-- ===== src/Uvgrtp/VpccSender.antt =====
-- `sender_func` of uvgrtp/vpcc_sender.cc: one thread sends the NAL units of one V3C stream from the
-- places that `mmap_v3c_file` has found. The clock and the period in microseconds are arguments;
-- whether a push succeeds only decides on a message.
pub mod Sends
pub mod Streams
pub mod Places
pub mod Delivers
use rtp_benchmarks.Common.{
  ℕ, zero, suc, ◌+◌, ◌*◌, ◌/◌, ◌≡◌, Bool, true, false, ◌||◌, ◌&&◌, List, [], ◌∷◌, ◌++◌, Result, ok,
  ◌>>=◌, ltb, leb, ◌==◌, if◌then◌else◌, u8, u64, add64, bit_and,
}
use rtp_benchmarks.V3c.Types.{NalInfo, V3cUnitInfo, load, load_bytes, v3c_ad, v3c_gvd, v3c_avd}
use rtp_benchmarks.Uvgrtp.Sender.{Event, push_frame, pace}

-- The locals of the loops.
pub record Progress : Type 0 where
  pub temp_nalu : ℕ
  pub current_frame : ℕ
  pub bytes_sent : ℕ

-- `param_set`, for the first byte of the NAL unit.
unfoldable pub is_param_set : ℕ → ℕ → Bool
is_param_set fmt b =
    let nalu_t = u8 (bit_and (b / 2) 0x3f) in
    if fmt == v3c_ad && ltb 35 nalu_t
    then true
    else if leb 32 nalu_t && leb nalu_t 34
    then true
    else false

-- The counters behind one NAL unit that is no parameter set, and whether a frame is complete.
pub count_nal : ℕ → Progress → Bool × Progress
count_nal fmt s =
    let nals = u64 (s.temp_nalu + 1) in
    if fmt == v3c_gvd || fmt == v3c_avd
    then (if ltb nals 4
        then (false, record s { temp_nalu = nals })
        else (true, record s { temp_nalu = 0; current_frame = u64 (s.current_frame + 1) }))
    else (true, record s { temp_nalu = 0; current_frame = u64 (s.current_frame + 1) })

-- The wait behind a NAL unit when it completes a frame, at the time `runtime`.
pub wait_for : ℕ → ℕ → Bool × Progress → List Event × Progress
wait_for period runtime (false, s) = ([], s)
wait_for period runtime (true, s) = (pace period s.current_frame runtime, s)

-- The body of the inner loop behind the push.
pub after_nal : ℕ → ℕ → ℕ → ℕ → Progress → List Event × Progress
after_nal fmt period runtime b s =
    if is_param_set fmt b then ([], s) else wait_for period runtime (count_nal fmt s)

-- `now n` is the runtime that is read when `n` bytes have been sent.
module _ (cbuf : List ℕ) (fmt : ℕ) (now : ℕ → ℕ) (period : ℕ) where
  pub send_nal : NalInfo → Progress → Result (List Event × Progress)
  send_nal i s = do
    b ← load cbuf i.location
    payload ← load_bytes cbuf i.location i.size
    let sent : Progress = record s { bytes_sent = add64 s.bytes_sent i.size } in
        let (waits, next) = after_nal fmt period (now sent.bytes_sent) b sent in
        ok (push_frame payload ∷ waits, next)

  pub send_nals : List NalInfo → Progress → Result (List Event × Progress)
  send_nals [] s = ok ([], s)
  send_nals (i ∷ rest) s = do
    (first, next) ← send_nal i s
    (events, last) ← send_nals rest next
    ok (first ++ events, last)

  pub send_units : List V3cUnitInfo → Progress → Result (List Event × Progress)
  send_units [] s = ok ([], s)
  send_units (u ∷ rest) s = do
    (first, next) ← send_nals u.nal_infos s
    (events, last) ← send_units rest next
    ok (first ++ events, last)

  -- What is sent, and `res.bytes_sent`.
  pub sender_func : List V3cUnitInfo → Result (List Event × ℕ)
  sender_func units = do
    (events, last) ← send_units units (record { temp_nalu = 0; current_frame = 0; bytes_sent = 0 })
    ok (events, last.bytes_sent)
