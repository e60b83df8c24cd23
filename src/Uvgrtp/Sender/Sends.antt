-- ===== src/Uvgrtp/Sender/Sends.antt =====
-- What `sender_thread` sends: the frames of the file, one by one.
use rtp_benchmarks.Common.{
  ℕ, ◌+◌, ◌*◌, ◌^◌, ◌≤◌, ◌<◌, ◌≡◌, refl, ap, ◌∙◌, Bool, true, false, List, [], ◌∷◌, ◌++◌,
  append_assoc, map, ok, arith, length, length-append, take-append_left, drop-append_left, leb,
  le→leb, u64, add64, max,
}
use rtp_benchmarks.V3c.Types.{load_bytes}
use rtp_benchmarks.Util.Files.{concat}
use rtp_benchmarks.Uvgrtp.Sender.{
  Event, push_frame, sleep_for, write_send_results, pace, after_push, sender_loop, sender_thread,
}

-- What has been pushed.
abbrev pub pushed : List Event → List (List ℕ)
pushed [] = []
pushed (push_frame payload ∷ events) = payload ∷ pushed events
pushed (sleep_for n ∷ events) = pushed events
pushed (write_send_results n ∷ events) = pushed events

-- The results that have been written.
abbrev pub written : List Event → List ℕ
written [] = []
written (push_frame payload ∷ events) = written events
written (sleep_for n ∷ events) = written events
written (write_send_results n ∷ events) = n ∷ written events

-- The time slept.
abbrev pub slept : List Event → ℕ
slept [] = 0
slept (push_frame payload ∷ events) = slept events
slept (sleep_for n ∷ events) = n + slept events
slept (write_send_results n ∷ events) = slept events

pub pushed-pace :
    (period n r : ℕ) (events : List Event) → pushed (pace period n r ++ events) ≡ pushed events
unfolding pace
pushed-pace period n r events = ground arith

pub written-pace :
    (period n r : ℕ) (events : List Event) → written (pace period n r ++ events) ≡ written events
unfolding pace
written-pace period n r events = ground arith

-- After a frame the thread sleeps exactly until the time of the next frame, or not at all when that
-- time is past.
pub slept-pace :
    (period current_frame runtime : ℕ)
    → current_frame * period < 2 ^ 64
    → runtime + slept (pace period current_frame runtime) ≡ max runtime (current_frame * period)
unfolding pace
slept-pace period current_frame runtime h = ground arith

-- A payload in the middle of the mapped file.
pub load_bytes-middle :
    (pre frame rest : List ℕ)
    → load_bytes (pre ++ (frame ++ rest)) (length pre) (length frame) ≡ ok frame
load_bytes-middle pre frame rest =
    let l = length-append {0} pre (frame ++ rest) in
    let k = length-append {0} frame rest in
    let e : leb (length pre + length frame) (length (pre ++ (frame ++ rest))) ≡ true =
      le→leb _ _ (omega arith) in
    rw (e, drop-append_left pre (frame ++ rest), take-append_left frame rest)

-- The first `n` pushes are accepted, from the frame number `current` on.
abbrev pub IsAccepted : (ℕ → Bool) → ℕ → ℕ → Type 0
IsAccepted push current n = (i : ℕ) → current ≤ i → i < current + n → push i ≡ true

module _ (push : ℕ → Bool) (now : ℕ → ℕ) (period : ℕ) (tail : List ℕ) where
  sender_loop-frames :
      (frames : List (List ℕ)) (pre mem : List ℕ) (current bytes_sent : ℕ)
      → mem ≡ pre ++ (concat frames ++ tail)
      → bytes_sent ≡ length pre
      → length mem < 2 ^ 64
      → current + length frames < 2 ^ 64
      → IsAccepted push current (length frames)
      → (events : List Event) × (sender_loop push now period mem
            (map length frames)
            bytes_sent
            current
          ≡ ok events)
        × (pushed events ≡ frames)
        × (written events ≡ (length pre + length (concat frames)) ∷ [])
  unfolding sender_loop after_push
  sender_loop-frames [] pre mem current bytes_sent em eb hm hc a =
      (write_send_results bytes_sent ∷ [], refl, refl, ap (λ n. n ∷ []) (omega arith))
  sender_loop-frames (frame ∷ frames) pre mem current bytes_sent em eb hm hc a =
      let l1 = length-append {0} pre ((frame ++ concat frames) ++ tail) in
      let l2 = length-append {0} (frame ++ concat frames) tail in
      let l3 = length-append {0} frame (concat frames) in
      let l4 = length-append {0} pre frame in
      let m = ap (length {A = ℕ}) em in
      let regroup : mem ≡ pre ++ (frame ++ (concat frames ++ tail)) = em ∙ simp append_assoc in
      let moved : mem ≡ (pre ++ frame) ++ (concat frames ++ tail) = em ∙ simp append_assoc in
      let here : load_bytes mem bytes_sent (length frame) ≡ ok frame =
        rw (eb, regroup) (load_bytes-middle pre frame (concat frames ++ tail)) in
      let (events, run, same, total) =
        sender_loop-frames frames (pre ++ frame) mem (u64 (current + 1))
          (add64 bytes_sent (length frame)) moved (omega arith) hm (omega arith)
          (λ i lo hi. a i (omega arith) (omega arith)) in
      let accepted : push current ≡ true = a current (omega arith) (omega arith) in
      (
        push_frame frame ∷ (pace period (u64 (current + 1)) (now current) ++ events),
        rw (here, accepted, run) refl,
        ap (λ l. frame ∷ l) (pushed-pace period (u64 (current + 1)) (now current) events ∙ same),
        written-pace period (u64 (current + 1)) (now current) events
            ∙ total
            ∙ ap (λ n. n ∷ []) (omega arith),
      )

  -- With a chunk file that has the sizes of the frames that the test file begins with, and a library
  -- that accepts each push, the thread pushes exactly those frames, in order, reads nothing out of
  -- the file's bounds, and writes one result, the number of the frames' bytes.
  pub sender_thread-frames :
      (frames : List (List ℕ))
      → length (concat frames ++ tail) < 2 ^ 64
      → length frames < 2 ^ 64
      → IsAccepted push 0 (length frames)
      → (events : List Event) × (sender_thread push now period
            (concat frames ++ tail)
            (map length frames)
          ≡ ok events)
        × (pushed events ≡ frames)
        × (written events ≡ length (concat frames) ∷ [])
  unfolding sender_thread
  sender_thread-frames frames h k a =
      let (events, run, same, total) =
        sender_loop-frames frames [] (concat frames ++ tail) 0 0 refl refl h (omega arith) a in
      (events, run, same, total ∙ ap (λ n. n ∷ []) (omega arith))

  -- A push that the library refuses ends the thread.
  sender_loop-refused :
      (frames : List (List ℕ)) (bad : List ℕ) (more : List ℕ) (pre mem : List ℕ)
      (current bytes_sent : ℕ)
      → mem ≡ pre ++ (concat frames ++ (bad ++ tail))
      → bytes_sent ≡ length pre
      → length mem < 2 ^ 64
      → current + length frames + 1 < 2 ^ 64
      → IsAccepted push current (length frames)
      → push (current + length frames) ≡ false
      → (events : List Event) × (sender_loop push now period mem
            (map length frames ++ (length bad ∷ more))
            bytes_sent
            current
          ≡ ok events)
        × (pushed events ≡ frames ++ (bad ∷ []))
        × (written events ≡ [])
  unfolding sender_loop after_push
  sender_loop-refused [] bad more pre mem current bytes_sent em eb hm hc a r =
      let here : load_bytes mem bytes_sent (length bad) ≡ ok bad =
        rw (eb, em) (load_bytes-middle pre bad tail) in
      let refused : push current ≡ false = ap push (omega arith) ∙ r in
      (push_frame bad ∷ sleep_for 500000 ∷ [], rw (here, refused) refl, refl, refl)
  sender_loop-refused (frame ∷ frames) bad more pre mem current bytes_sent em eb hm hc a r =
      let l1 = length-append {0} pre ((frame ++ concat frames) ++ (bad ++ tail)) in
      let l2 = length-append {0} (frame ++ concat frames) (bad ++ tail) in
      let l3 = length-append {0} frame (concat frames) in
      let l4 = length-append {0} pre frame in
      let m = ap (length {A = ℕ}) em in
      let regroup : mem ≡ pre ++ (frame ++ (concat frames ++ (bad ++ tail))) =
        em ∙ simp append_assoc in
      let moved : mem ≡ (pre ++ frame) ++ (concat frames ++ (bad ++ tail)) =
        em ∙ simp append_assoc in
      let here : load_bytes mem bytes_sent (length frame) ≡ ok frame =
        rw (eb, regroup) (load_bytes-middle pre frame (concat frames ++ (bad ++ tail))) in
      let (events, run, same, total) =
        sender_loop-refused frames bad more (pre ++ frame) mem (u64 (current + 1))
          (add64 bytes_sent (length frame)) moved (omega arith) hm (omega arith)
          (λ i lo hi. a i (omega arith) (omega arith)) (ap push (omega arith) ∙ r) in
      let accepted : push current ≡ true = a current (omega arith) (omega arith) in
      (
        push_frame frame ∷ (pace period (u64 (current + 1)) (now current) ++ events),
        rw (here, accepted, run) refl,
        ap (λ l. frame ∷ l) (pushed-pace period (u64 (current + 1)) (now current) events ∙ same),
        written-pace period (u64 (current + 1)) (now current) events ∙ total,
      )

  -- When the library refuses the push after the frames, the thread pushes nothing after it, and
  -- writes no result.
  pub sender_thread-refused :
      (frames : List (List ℕ)) (bad : List ℕ) (more : List ℕ)
      → length (concat frames ++ (bad ++ tail)) < 2 ^ 64
      → length frames + 1 < 2 ^ 64
      → IsAccepted push 0 (length frames)
      → push (length frames) ≡ false
      → (events : List Event) × (sender_thread push now period
            (concat frames ++ (bad ++ tail))
            (map length frames ++ (length bad ∷ more))
          ≡ ok events)
        × (pushed events ≡ frames ++ (bad ∷ []))
        × (written events ≡ [])
  unfolding sender_thread
  sender_thread-refused frames bad more h k a r =
      sender_loop-refused frames bad more [] (concat frames ++ (bad ++ tail)) 0 0 refl refl h
        (omega arith) a (ap push (omega arith) ∙ r)
