-- ===== src/Uvgrtp/Echo/Loops.antt =====
-- When the receivers of the latency benchmarks end, and what they have sent back by then.
use rtp_benchmarks.Common.{
  ℕ, ◌+◌, ◌≤◌, ◌<◌, ◌≡◌, refl, ap, ◌∙◌, Bool, true, false, List, [], ◌∷◌, ◌++◌, ok, arith, All,
  length, length-append, get_elem?_of_lt, ltb,
}
use rtp_benchmarks.Uvgrtp.Echo.{
  expected_frames, EchoState, initial_echo, count_nalu, hook_receiver, hook_receivers, goes_on,
  receiver_loop, Stream, VpccEcho, initial_vpcc_echo, hook_rec, hook_recs, vpcc_receiver_loop,
}

abbrev pub all_frames {ℓ} : {A : Type ℓ} → List (List A) → List A
all_frames [] = []
all_frames (xs ∷ xss) = xs ++ all_frames xss

-- Long enough for the byte that the hook reads.
abbrev pub IsReadable : List ℕ → Type 0
IsReadable payload = 5 ≤ length payload

count_nalu_lem :
    (b : ℕ) (s : EchoState)
    → ((count_nalu b s).frame_received ≡ s.frame_received)
      × ((count_nalu b s).total_frames_received ≡ s.total_frames_received)
unfolding count_nalu
count_nalu_lem b s = ground arith

abbrev any_of {ℓ} : {A : Type ℓ} → List A → Bool → Bool
any_of [] flag = flag
any_of (x ∷ xs) flag = true

any_of-true {ℓ} : {A : Type ℓ} (xs : List A) → any_of xs true ≡ true
any_of-true [] = refl
any_of-true (x ∷ xs) = refl

any_of-busy {ℓ} : {A : Type ℓ} (xs : List A) (flag : Bool) → 0 < length xs → any_of xs flag ≡ true
any_of-busy [] flag h = absurd (omega arith)
any_of-busy (x ∷ xs) flag h = refl

hook_receivers_lem :
    (frames : List (List ℕ)) (s : EchoState)
    → All IsReadable frames
    → (t : EchoState) × (hook_receivers frames s ≡ ok (frames, t))
      × (t.total_frames_received ≡ s.total_frames_received + length frames)
      × (t.frame_received ≡ any_of frames s.frame_received)
unfolding hook_receivers hook_receiver
hook_receivers_lem [] s a = (s, refl, omega arith, refl)
hook_receivers_lem (payload ∷ frames) s (h, a) =
    let (b, here) = get_elem?_of_lt payload 4 (omega arith) in
    let one : EchoState = record s {
      frame_received = true;
      total_frames_received = s.total_frames_received + 1;
    } in
    let (flag, total) = count_nalu_lem b one in
    let (t, runs, sum, any) = hook_receivers_lem frames (count_nalu b one) a in
    (t, rw (here, runs) refl, omega arith, any ∙ ap (any_of frames) flag ∙ any_of-true frames)

-- The loop ends when the flag is not set, whatever comes.
receiver_loop-quiet :
    (rest : List (List (List ℕ))) (s : EchoState)
    → s.frame_received ≡ false
    → receiver_loop rest s ≡ ok ([], s, true)
unfolding receiver_loop goes_on
receiver_loop-quiet [] s e = rw e refl
receiver_loop-quiet (interval ∷ rest) s e = rw e refl

receiver_loop_lem :
    (busy more : List (List (List ℕ))) (s : EchoState)
    → All (λ frames. 0 < length frames) busy
    → All (All IsReadable) busy
    → s.frame_received ≡ true
    → s.total_frames_received + length (all_frames busy) < expected_frames
    → (t : EchoState) × (receiver_loop (busy ++ [] ∷ more) s ≡ ok (all_frames busy, t, true))
      × (t.total_frames_received ≡ s.total_frames_received + length (all_frames busy))
unfolding receiver_loop goes_on hook_receivers
receiver_loop_lem [] more s b r f h =
    let below : ltb s.total_frames_received expected_frames ≡ true = ground arith in
    let quiet : EchoState = record s { frame_received = false } in
    (quiet, rw (f, below, receiver_loop-quiet more quiet refl) refl, omega arith)
receiver_loop_lem (frames ∷ busy) more s (b, bs) (r, rs) f h =
    let l = length-append {0} frames (all_frames busy) in
    let below : ltb s.total_frames_received expected_frames ≡ true = ground arith in
    let (s1, hooks, sum, flag) =
      hook_receivers_lem frames (record s { frame_received = false }) r in
    let (t, runs, total) =
      receiver_loop_lem busy more s1 bs rs (flag ∙ any_of-busy frames false b) (omega arith) in
    (t, rw (f, below, hooks, runs) refl, omega arith)

-- When frames of at least five bytes come in each interval until one interval stays empty, fewer than
-- the expected number in all, the receiver sends each of them back, in order, counts them, and ends
-- behind that interval, whatever would come later.
pub receiver_loop-echoes :
    (busy more : List (List (List ℕ)))
    → All (λ frames. 0 < length frames) busy
    → All (All IsReadable) busy
    → length (all_frames busy) < expected_frames
    → (t : EchoState) × (receiver_loop (busy ++ [] ∷ more) initial_echo
        ≡ ok (all_frames busy, t, true))
      × (t.total_frames_received ≡ length (all_frames busy))
receiver_loop-echoes busy more b r h =
    let (t, runs, total) = receiver_loop_lem busy more initial_echo b r refl (omega arith) in
    (t, runs, omega arith)

-- The number of frames of the four streams.
abbrev pub vpcc_total : VpccEcho → ℕ
vpcc_total s = s.ad_nals + s.ovd_nals + s.gvd_nals + s.avd_nals

hook_rec_lem :
    (frame : Stream × List ℕ) (s : VpccEcho)
    → ((hook_rec frame s).0 ≡ frame ∷ [])
      × ((hook_rec frame s).1.frame_received ≡ true)
      × (vpcc_total (hook_rec frame s).1 ≡ vpcc_total s + 1)
unfolding hook_rec
hook_rec_lem (Stream.ad, payload) s = (refl, refl, omega arith)
hook_rec_lem (Stream.ovd, payload) s = (refl, refl, omega arith)
hook_rec_lem (Stream.gvd, payload) s = (refl, refl, omega arith)
hook_rec_lem (Stream.avd, payload) s = (refl, refl, omega arith)

hook_recs_lem :
    (frames : List (Stream × List ℕ)) (s : VpccEcho)
    → ((hook_recs frames s).0 ≡ frames)
      × ((hook_recs frames s).1.frame_received ≡ any_of frames s.frame_received)
      × (vpcc_total (hook_recs frames s).1 ≡ vpcc_total s + length frames)
unfolding hook_recs
hook_recs_lem [] s = (refl, refl, omega arith)
hook_recs_lem (frame ∷ frames) s =
    let (one, flag, count) = hook_rec_lem frame s in
    let (all, any, total) = hook_recs_lem frames (hook_rec frame s).1 in
    (rw (one, all) refl, any ∙ ap (any_of frames) flag ∙ any_of-true frames, omega arith)

vpcc_receiver_loop-quiet :
    (rest : List (List (Stream × List ℕ))) (s : VpccEcho)
    → s.frame_received ≡ false
    → vpcc_receiver_loop rest s ≡ ([], s, true)
unfolding vpcc_receiver_loop
vpcc_receiver_loop-quiet [] s e = rw e refl
vpcc_receiver_loop-quiet (interval ∷ rest) s e = rw e refl

vpcc_receiver_loop_lem :
    (busy more : List (List (Stream × List ℕ))) (s : VpccEcho)
    → All (λ frames. 0 < length frames) busy
    → s.frame_received ≡ true
    → ((vpcc_receiver_loop (busy ++ [] ∷ more) s).0 ≡ all_frames busy)
      × (vpcc_total (vpcc_receiver_loop (busy ++ [] ∷ more) s).1
          ≡ vpcc_total s + length (all_frames busy))
      × ((vpcc_receiver_loop (busy ++ [] ∷ more) s).2 ≡ true)
unfolding vpcc_receiver_loop hook_recs
vpcc_receiver_loop_lem [] more s b f =
    rw (f, vpcc_receiver_loop-quiet more (record s { frame_received = false }) refl)
      (refl, omega arith, refl)
vpcc_receiver_loop_lem (frames ∷ busy) more s b f =
    let l = length-append {0} frames (all_frames busy) in
    let (sent, flag, count) = hook_recs_lem frames (record s { frame_received = false }) in
    let s1 = (hook_recs frames (record s { frame_received = false })).1 in
    let (all, total, ended) =
      vpcc_receiver_loop_lem busy more s1 b.1 (flag ∙ any_of-busy frames false b.0) in
    rw f (rw (sent, all) refl, omega arith, ended)

-- When NAL units of any of the four streams come in each interval until one interval stays empty, the
-- receiver sends each of them back on its stream, in order, counts them, and ends behind that
-- interval, whatever would come later.
pub vpcc_receiver_loop-echoes :
    (busy more : List (List (Stream × List ℕ)))
    → All (λ frames. 0 < length frames) busy
    → ((vpcc_receiver_loop (busy ++ [] ∷ more) initial_vpcc_echo).0 ≡ all_frames busy)
      × (vpcc_total (vpcc_receiver_loop (busy ++ [] ∷ more) initial_vpcc_echo).1
          ≡ length (all_frames busy))
      × ((vpcc_receiver_loop (busy ++ [] ∷ more) initial_vpcc_echo).2 ≡ true)
vpcc_receiver_loop-echoes busy more b =
    let (all, total, ended) = vpcc_receiver_loop_lem busy more initial_vpcc_echo b refl in
    (all, omega arith, ended)
