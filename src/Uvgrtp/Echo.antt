-- ===== src/Uvgrtp/Echo.antt =====
-- The receivers of the latency benchmarks, uvgrtp/latency_receiver.cc and
-- uvgrtp/vpcc_latency_receiver.cc: a hook sends each frame back at once, and the main loop sleeps and
-- ends when no frame has come in one interval. What arrives in each interval is an argument, and
-- whether the library accepts the frame only decides on a message. The counters of type `int` are
-- taken to stay below 2 ^ 31.
pub mod Loops
use rtp_benchmarks.Common.{
  ℕ, ◌+◌, ◌/◌, ◌≡◌, Bool, true, false, ◌&&◌, List, [], ◌∷◌, ◌++◌, Result, ok, ◌>>=◌, ltb, leb,
  if◌then◌else◌, u8, add64, bit_and,
}
use rtp_benchmarks.V3c.Types.{load}

-- EXPECTED_FRAMES of uvgrtp/uvgrtp_util.hh.
abbrev pub expected_frames : ℕ
expected_frames = 604

pub record EchoState : Type 0 where
  pub frame_received : Bool
  pub total_frames_received : ℕ
  pub ninters : ℕ
  pub nintras : ℕ
  pub n_non_vcl : ℕ

abbrev pub initial_echo : EchoState
initial_echo = record {
  frame_received = true;
  total_frames_received = 0;
  ninters = 0;
  nintras = 0;
  n_non_vcl = 0;
}

unfoldable pub count_nalu : ℕ → EchoState → EchoState
count_nalu b s =
    let nalu_t = u8 (bit_and (b / 2) 0x3f) in
    if leb nalu_t 15
    then record s { ninters = add64 s.ninters 1 }
    else if leb 16 nalu_t && leb nalu_t 23
    then record s { nintras = add64 s.nintras 1 }
    else record s { n_non_vcl = add64 s.n_non_vcl 1 }

-- The frame that is sent back, and the state.
unfoldable pub hook_receiver : List ℕ → EchoState → Result (List (List ℕ) × EchoState)
hook_receiver payload s = do
  b ← load payload 4
  ok (
    payload ∷ [],
    count_nalu b
        (record s { frame_received = true; total_frames_received = s.total_frames_received + 1 }),
  )

-- The frames of one interval.
pub hook_receivers : List (List ℕ) → EchoState → Result (List (List ℕ) × EchoState)
hook_receivers [] s = ok ([], s)
hook_receivers (payload ∷ rest) s = do
  (first, s1) ← hook_receiver payload s
  (more, s2) ← hook_receivers rest s1
  ok (first ++ more, s2)

unfoldable pub goes_on : EchoState → Bool
goes_on s = s.frame_received && ltb s.total_frames_received expected_frames

-- The loop, for the frames that arrive in each of its sleeps; it may also still be running when the
-- list is used up. The answer tells whether the loop has ended.
pub receiver_loop : List (List (List ℕ)) → EchoState → Result (List (List ℕ) × EchoState × Bool)
receiver_loop [] s = ok ([], s, if goes_on s then false else true)
receiver_loop (interval ∷ rest) s =
    if goes_on s
    then (hook_receivers interval (record s { frame_received = false }) >>= (λ (sent, s1).
        receiver_loop rest s1 >>= (λ (more, s2, ended). ok (sent ++ more, s2, ended))))
    else ok ([], s, true)

-- The stream that a frame of a V-PCC file comes from.
pub data Stream : Type 0 where
  ad ovd gvd avd : Stream

-- The globals of uvgrtp/vpcc_latency_receiver.cc.
pub record VpccEcho : Type 0 where
  pub frame_received : Bool
  pub ad_nals : ℕ
  pub ovd_nals : ℕ
  pub gvd_nals : ℕ
  pub avd_nals : ℕ

abbrev pub initial_vpcc_echo : VpccEcho
initial_vpcc_echo = record {
  frame_received = true;
  ad_nals = 0;
  ovd_nals = 0;
  gvd_nals = 0;
  avd_nals = 0;
}

-- `ad_hook_rec` and the other three: what is sent back, on the same stream, and the state.
unfoldable pub hook_rec : Stream × List ℕ → VpccEcho → List (Stream × List ℕ) × VpccEcho
hook_rec (ad, payload) s =
    ((ad, payload) ∷ [], record s { frame_received = true; ad_nals = s.ad_nals + 1 })
hook_rec (ovd, payload) s =
    ((ovd, payload) ∷ [], record s { frame_received = true; ovd_nals = s.ovd_nals + 1 })
hook_rec (gvd, payload) s =
    ((gvd, payload) ∷ [], record s { frame_received = true; gvd_nals = s.gvd_nals + 1 })
hook_rec (avd, payload) s =
    ((avd, payload) ∷ [], record s { frame_received = true; avd_nals = s.avd_nals + 1 })

pub hook_recs : List (Stream × List ℕ) → VpccEcho → List (Stream × List ℕ) × VpccEcho
hook_recs [] s = ([], s)
hook_recs (frame ∷ rest) s =
    let (first, s1) = hook_rec frame s in let (more, s2) = hook_recs rest s1 in (first ++ more, s2)

pub vpcc_receiver_loop :
    List (List (Stream × List ℕ)) → VpccEcho → List (Stream × List ℕ) × VpccEcho × Bool
vpcc_receiver_loop [] s = ([], s, if s.frame_received then false else true)
vpcc_receiver_loop (interval ∷ rest) s =
    let (sent, s1) = hook_recs interval (record s { frame_received = false }) in
    let (more, s2, ended) = vpcc_receiver_loop rest s1 in
    if s.frame_received then (sent ++ more, s2, ended) else ([], s, true)
