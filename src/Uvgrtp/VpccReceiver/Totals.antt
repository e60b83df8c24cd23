-- ===== src/Uvgrtp/VpccReceiver/Totals.antt =====
-- What uvgrtp/vpcc_receiver.cc writes for the frames of its four streams.
use rtp_benchmarks.Common.{
  ℕ, ◌+◌, ◌^◌, ◌<◌, ◌≡◌, refl, ap, ◌∙◌, Bool, true, false, not, ◌||◌, List, [], ◌∷◌, ◌++◌, Option,
  none, some, arith, All, ◌==◌, Bool-cases, inl, inr,
}
use rtp_benchmarks.Uvgrtp.VpccReceiver.{StreamResults, Call, note_start, note_frame, hook}
use rtp_benchmarks.Uvgrtp.VpccReceiver.Rounds.{
  Origin, from_ad, from_ovd, from_gvd, from_avd, AllResults, no_frames, hook_on, hook_all,
  receive_loop, total_results,
}

-- The frames and the bytes of some calls; a call with a null pointer brings neither.
abbrev pub call_frames : Option ℕ → ℕ
call_frames none = 0
call_frames (some payload_len) = 1

abbrev pub call_bytes : Option ℕ → ℕ
call_bytes none = 0
call_bytes (some payload_len) = payload_len

abbrev pub frames : List (Origin × Call) → ℕ
frames [] = 0
frames ((origin, call) ∷ calls) = call_frames call.payload_len + frames calls

abbrev pub bytes : List (Origin × Call) → ℕ
bytes [] = 0
bytes ((origin, call) ∷ calls) = call_bytes call.payload_len + bytes calls

-- What the four streams have counted.
abbrev packets_of : AllResults → ℕ
packets_of r =
    r.ad_r.packets_received + r.ovd_r.packets_received + r.gvd_r.packets_received
    + r.avd_r.packets_received

abbrev bytes_of : AllResults → ℕ
bytes_of r =
    r.ad_r.bytes_received + r.ovd_r.bytes_received + r.gvd_r.bytes_received + r.avd_r.bytes_received

abbrev flag_of : Option ℕ → Bool → Bool
flag_of none flag = flag
flag_of (some payload_len) flag = true

note_start-counts :
    (now : ℕ) (s : StreamResults)
    → ((note_start now s).packets_received ≡ s.packets_received)
      × ((note_start now s).bytes_received ≡ s.bytes_received)
unfolding note_start
note_start-counts now s = elim (Bool-cases (s.packets_received == 0)) [
  | inl e ↦ rw e (refl, refl)
  | inr e ↦ rw e (refl, refl)
]

-- A frame is counted, with its bytes, and sets the flag.
abbrev IsCounted : Option ℕ → StreamResults → Bool → StreamResults × Bool → Type 0
IsCounted len s flag r =
    (r.0.packets_received ≡ s.packets_received + call_frames len)
    × (r.0.bytes_received ≡ s.bytes_received + call_bytes len)
    × (r.1 ≡ flag_of len flag)

note_frame-IsCounted :
    (len : Option ℕ) (now : ℕ) (s : StreamResults) (flag : Bool)
    → s.packets_received + call_frames len < 2 ^ 64
    → s.bytes_received + call_bytes len < 2 ^ 64
    → IsCounted len s flag (note_frame len now s flag)
unfolding note_frame
note_frame-IsCounted none now s flag h k = (omega arith, omega arith, refl)
note_frame-IsCounted (some n) now s flag h k = (omega arith, omega arith, refl)

hook-IsCounted :
    (call : Call) (s : StreamResults) (flag : Bool)
    → s.packets_received + call_frames call.payload_len < 2 ^ 64
    → s.bytes_received + call_bytes call.payload_len < 2 ^ 64
    → IsCounted call.payload_len s flag (hook call s flag)
unfolding hook
hook-IsCounted call s flag h k =
    let (p, b) = note_start-counts call.entered s in
    let (p', b', f) =
      note_frame-IsCounted call.payload_len call.received (note_start call.entered s) flag
        (omega arith) (omega arith) in
    (omega arith, omega arith, f)

-- The same, of all streams together.
abbrev AreCounted : ℕ → ℕ → AllResults → AllResults → Type 0
AreCounted n size r t = (packets_of t ≡ packets_of r + n) × (bytes_of t ≡ bytes_of r + size)

hook_on-AreCounted :
    (origin : Origin) (call : Call) (r : AllResults) (flag : Bool)
    → packets_of r + call_frames call.payload_len < 2 ^ 64
    → bytes_of r + call_bytes call.payload_len < 2 ^ 64
    → AreCounted
        (call_frames call.payload_len)
        (call_bytes call.payload_len)
        r
        (hook_on origin call r flag).0
      × ((hook_on origin call r flag).1 ≡ flag_of call.payload_len flag)
unfolding hook_on
hook_on-AreCounted from_ad call r flag h k =
    let (p, b, f) = hook-IsCounted call r.ad_r flag (omega arith) (omega arith) in
    ((omega arith, omega arith), f)
hook_on-AreCounted from_ovd call r flag h k =
    let (p, b, f) = hook-IsCounted call r.ovd_r flag (omega arith) (omega arith) in
    ((omega arith, omega arith), f)
hook_on-AreCounted from_gvd call r flag h k =
    let (p, b, f) = hook-IsCounted call r.gvd_r flag (omega arith) (omega arith) in
    ((omega arith, omega arith), f)
hook_on-AreCounted from_avd call r flag h k =
    let (p, b, f) = hook-IsCounted call r.avd_r flag (omega arith) (omega arith) in
    ((omega arith, omega arith), f)

-- Some of the calls brings a frame.
abbrev pub has_frame : List (Origin × Call) → Bool
has_frame calls = not (frames calls == 0)

hook_all-AreCounted :
    (calls : List (Origin × Call)) (r : AllResults) (flag : Bool)
    → packets_of r + frames calls < 2 ^ 64
    → bytes_of r + bytes calls < 2 ^ 64
    → AreCounted (frames calls) (bytes calls) r (hook_all calls r flag).0
      × ((hook_all calls r flag).1 ≡ (flag || has_frame calls))
unfolding hook_all
hook_all-AreCounted [] r flag h k = ((omega arith, omega arith), ground arith)
hook_all-AreCounted ((origin, call) ∷ calls) r flag h k =
    let next = hook_on origin call r flag in
    let ((p, b), f) = hook_on-AreCounted origin call r flag (omega arith) (omega arith) in
    let ((p', b'), f') = hook_all-AreCounted calls next.0 next.1 (omega arith) (omega arith) in
    (
      (omega arith, omega arith),
      f' ∙ ap (λ x. x || has_frame calls) f ∙ joined call.payload_len (frames calls) flag,
    )
  where
    joined :
        (len : Option ℕ) (n : ℕ) (old : Bool)
        → (flag_of len old || not (n == 0)) ≡ (old || not (call_frames len + n == 0))
    joined none n old = let e : 0 + n ≡ n = omega arith in rw e refl
    joined (some m) n true = refl
    joined (some m) n false = ground arith

abbrev pub all_frames : List (List (Origin × Call)) → ℕ
all_frames [] = 0
all_frames (calls ∷ later) = frames calls + all_frames later

abbrev pub all_bytes : List (List (Origin × Call)) → ℕ
all_bytes [] = 0
all_bytes (calls ∷ later) = bytes calls + all_bytes later

stopped :
    (later : List (List (Origin × Call))) (r : AllResults) → receive_loop later r false ≡ some r
unfolding receive_loop
stopped [] r = refl
stopped (calls ∷ later) r = refl

round :
    (calls : List (Origin × Call)) (later : List (List (Origin × Call))) (r : AllResults)
    → receive_loop (calls ∷ later) r true
      ≡ receive_loop later (hook_all calls r false).0 (hook_all calls r false).1
unfolding receive_loop
round calls later r = refl

-- Without a frame there are no bytes.
frames-bytes : (calls : List (Origin × Call)) → frames calls ≡ 0 → bytes calls ≡ 0
frames-bytes [] h = refl
frames-bytes ((origin, call) ∷ calls) h = one call.payload_len h (frames-bytes calls (omega arith))
  where
    one :
        (len : Option ℕ)
        → call_frames len + frames calls ≡ 0
        → bytes calls ≡ 0
        → call_bytes len + bytes calls ≡ 0
    one none e f = omega arith
    one (some n) e f = absurd (omega arith)

receive_loop-counts :
    (busy : List (List (Origin × Call))) (quiet : List (Origin × Call))
    (later : List (List (Origin × Call))) (r : AllResults)
    → All (λ calls. has_frame calls ≡ true) busy
    → has_frame quiet ≡ false
    → packets_of r + all_frames busy < 2 ^ 64
    → bytes_of r + all_bytes busy < 2 ^ 64
    → (t : AllResults) × (receive_loop (busy ++ (quiet ∷ later)) r true ≡ some t)
      × AreCounted (all_frames busy) (all_bytes busy) r t
receive_loop-counts [] quiet later r a q h k =
    let none_there : frames quiet ≡ 0 = ground arith in
    let no_bytes = frames-bytes quiet none_there in
    let next = hook_all quiet r false in
    let ((p, b), g) = hook_all-AreCounted quiet r false (omega arith) (omega arith) in
    (
      next.0,
      round quiet later r ∙ ap (receive_loop later next.0) (g ∙ q) ∙ stopped later next.0,
      (omega arith, omega arith),
    )
receive_loop-counts (calls ∷ busy) quiet later r (f, a) q h k =
    let next = hook_all calls r false in
    let ((p, b), g) = hook_all-AreCounted calls r false (omega arith) (omega arith) in
    let (t, runs, (p', b')) =
      receive_loop-counts busy quiet later next.0 a q (omega arith) (omega arith) in
    (
      t,
      round calls (busy ++ (quiet ∷ later)) r
          ∙ ap (receive_loop (busy ++ (quiet ∷ later)) next.0) (g ∙ f)
          ∙ runs,
      (omega arith, omega arith),
    )

-- When frames of any of the four streams come in each interval until one interval stays empty, the
-- program stops waiting behind that interval, whatever would come later, and writes the number of bytes
-- and of frames of all streams together; calls of the hook without a frame count for nothing.
pub receive_loop-total_results :
    (busy : List (List (Origin × Call))) (quiet : List (Origin × Call))
    (later : List (List (Origin × Call)))
    → All (λ calls. has_frame calls ≡ true) busy
    → has_frame quiet ≡ false
    → all_frames busy < 2 ^ 64
    → all_bytes busy < 2 ^ 64
    → (r : AllResults) × (receive_loop (busy ++ (quiet ∷ later)) no_frames true ≡ some r)
      × ((total_results r).0 ≡ all_bytes busy)
      × ((total_results r).1 ≡ all_frames busy)
unfolding total_results
receive_loop-total_results busy quiet later a q h k =
    let (r, runs, (p, b)) =
      receive_loop-counts busy quiet later no_frames a q (omega arith) (omega arith) in
    (r, runs, omega arith, omega arith)
