-- ===== src/Uvgrtp/Receiver/Counts.antt =====
-- What the hook of uvgrtp/receiver.cc counts for the frames of one thread.
use rtp_benchmarks.Common.{
  ℕ, zero, suc, ◌+◌, ◌^◌, ◌<◌, ◌≡◌, refl, ap, ◌∙◌, false, List, [], ◌∷◌, some, Result, ok, arith,
  length, get_elem?, set, ◌==◌, add64,
}
use rtp_benchmarks.Uvgrtp.Echo.{expected_frames}
use rtp_benchmarks.Uvgrtp.Receiver.{
  ThreadInfo, no_info, Shared, FrameCall, note_entry, note_payload, note_ready, hook_frame,
  receiver_hook, receiver_hooks,
}

-- The frames of a thread, each with its two times and the length of its payload.
abbrev pub frame_calls : List (ℕ × ℕ × ℕ) → List FrameCall
frame_calls [] = []
frame_calls ((e, n, r) ∷ fs) =
    record { entered = e; payload_len = some n; received = r } ∷ frame_calls fs

abbrev pub total_len : List (ℕ × ℕ × ℕ) → ℕ
total_len [] = 0
total_len ((e, n, r) ∷ fs) = n + total_len fs

abbrev pub last_time : ℕ → List (ℕ × ℕ × ℕ) → ℕ
last_time t [] = t
last_time t ((e, n, r) ∷ fs) = last_time r fs

get_elem?-set :
    (ts : List ThreadInfo) (i : ℕ) {t u : ThreadInfo}
    → get_elem? ts i ≡ some t
    → get_elem? (set ts i u) i ≡ some u
get_elem?-set [] i e = cc
get_elem?-set (x ∷ ts) zero e = refl
get_elem?-set (x ∷ ts) (suc i) e = get_elem?-set ts i e

set-set : (ts : List ThreadInfo) (i : ℕ) (t u : ThreadInfo) → set (set ts i t) i u ≡ set ts i u
set-set [] i t u = refl
set-set (x ∷ ts) zero t u = refl
set-set (x ∷ ts) (suc i) t u = ap (λ l. x ∷ l) (set-set ts i t u)

-- The counts behind `n` more frames with `bytes` in all.
abbrev pub counted : ThreadInfo → ℕ → ℕ → ℕ → ThreadInfo
counted t n bytes last = record {
  pkts = t.pkts + n;
  bytes = t.bytes + bytes;
  start = t.start;
  last = last;
}

receiver_hook-frame :
    (tid e n r : ℕ) (t : ThreadInfo) (s : Shared)
    → get_elem? s.thread_info tid ≡ some t
    → 0 < t.pkts
    → t.pkts + 1 < expected_frames
    → t.bytes + n < 2 ^ 64
    → receiver_hook tid (record { entered = e; payload_len = some n; received = r }) s
      ≡ ok (record s {
        thread_info = set s.thread_info tid (counted t 1 n r);
        frames_received = s.frames_received + 1;
      })
unfolding receiver_hook hook_frame note_entry note_payload note_ready
receiver_hook-frame tid e n r t s here some_pkts few small =
    let later : (t.pkts == 0) ≡ false = ground arith in
    let p : add64 t.pkts 1 ≡ t.pkts + 1 = omega arith in
    let b : add64 t.bytes n ≡ t.bytes + n = omega arith in
    let open_end : (t.pkts + 1 == expected_frames) ≡ false = ground arith in
    rw (here, later, p, b, open_end) refl

-- The state behind `n` frames of the thread.
abbrev pub after_frames : Shared → ℕ → ThreadInfo → ℕ → Shared
after_frames s tid t n = record s {
  thread_info = set s.thread_info tid t;
  frames_received = s.frames_received + n;
}

abbrev info : ℕ → ℕ → ℕ → ℕ → ThreadInfo
info pkts bytes start last = record { pkts = pkts; bytes = bytes; start = start; last = last }

infos : {p q b c start last : ℕ} → p ≡ q → b ≡ c → info p b start last ≡ info q c start last
infos e f = rw (e, f) refl

-- Behind one frame, the others of a thread, as one result.
after_twice :
    (s : Shared) (tid c d m : ℕ) (t : ThreadInfo) {u v : ThreadInfo}
    → u ≡ v
    → s.frames_received + c + d ≡ s.frames_received + m
    → ok (after_frames (after_frames s tid t c) tid u d) ≡ ok (after_frames s tid v m)
after_twice s tid c d m t {u} {v} e f =
    let result : (List ThreadInfo → ℕ → Result Shared) =
      λ ts n. ok (record s { thread_info = ts; frames_received = n }) in
    ap (λ ts. result ts (s.frames_received + c + d))
      (set-set s.thread_info tid t u ∙ ap (set s.thread_info tid) e)
    ∙ ap (result (set s.thread_info tid v)) f

receiver_hooks-frames :
    (tid e n r : ℕ) (fs : List (ℕ × ℕ × ℕ)) (t : ThreadInfo) (s : Shared)
    → get_elem? s.thread_info tid ≡ some t
    → 0 < t.pkts
    → t.pkts + 1 + length fs < expected_frames
    → t.bytes + n + total_len fs < 2 ^ 64
    → receiver_hooks tid (frame_calls ((e, n, r) ∷ fs)) s
      ≡ ok (
          after_frames s tid
            (counted t (1 + length fs) (n + total_len fs) (last_time r fs))
            (1 + length fs))
unfolding receiver_hooks
receiver_hooks-frames tid e n r [] t s here some_pkts few small =
    let zero_bytes : n ≡ n + 0 = omega arith in
    rw (receiver_hook-frame tid e n r t s here some_pkts (omega arith) (omega arith))
      (ap (λ b. ok (after_frames s tid (counted t 1 b r) 1)) zero_bytes)
receiver_hooks-frames tid e n r ((e', n', r') ∷ fs) t s here some_pkts few small =
    let next = counted t 1 n r in
    let s' = after_frames s tid next 1 in
    let there = get_elem?-set s.thread_info tid {u = next} here in
    let rest =
      receiver_hooks-frames tid e' n' r' fs next s' there (omega arith) (omega arith)
        (omega arith) in
    rw (receiver_hook-frame tid e n r t s here some_pkts (omega arith) (omega arith)) (
      rest
      ∙ after_twice s tid 1 (1 + length fs) (1 + suc (length fs)) (counted t 1 n r)
          (infos (omega arith) (omega arith)) (omega arith))

-- From the zeros that a thread starts with, two or more frames of it, but fewer than the expected number, make
-- the packets, the bytes, the time at which the first was noticed and the time of the last; they are
-- counted for all threads, no other thread's numbers change, and nothing is written.
pub receiver_hooks-no_info :
    (tid e n r : ℕ) (e' n' r' : ℕ) (fs : List (ℕ × ℕ × ℕ)) (s : Shared)
    → get_elem? s.thread_info tid ≡ some no_info
    → 2 + length fs < expected_frames
    → n + (n' + total_len fs) < 2 ^ 64
    → receiver_hooks tid (frame_calls ((e, n, r) ∷ (e', n', r') ∷ fs)) s
      ≡ ok (
          after_frames s tid
            (record {
              pkts = 2 + length fs;
              bytes = n + (n' + total_len fs);
              start = e;
              last = last_time r' fs;
            })
            (2 + length fs))
unfolding receiver_hooks receiver_hook hook_frame note_entry note_payload note_ready
receiver_hooks-no_info tid e n r e' n' r' fs s here few small =
    let first = info 1 (add64 0 n) e r in
    let s' = after_frames s tid first 1 in
    let there = get_elem?-set s.thread_info tid {u = first} here in
    let rest =
      receiver_hooks-frames tid e' n' r' fs first s' there (omega arith) (omega arith)
        (omega arith) in
    rw here (
      rest
      ∙ after_twice s tid 1 (1 + length fs) (2 + length fs) first
          (infos (omega arith) (omega arith)) (omega arith))
