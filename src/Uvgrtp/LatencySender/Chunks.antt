-- ===== src/Uvgrtp/LatencySender/Chunks.antt =====
-- What the loop over the chunks in uvgrtp/latency_sender.cc pushes, when some push may be refused.
use rtp_benchmarks.Common.{
  ℕ, ◌+◌, ◌^◌, ◌<◌, ◌≡◌, refl, ap, ◌∙◌, Bool, true, false, List, [], ◌∷◌, ◌++◌, append_assoc, map,
  Result, ok, arith, length, length-append, if◌then◌else◌, u64, add64, Bool-cases, inl, inr,
}
use rtp_benchmarks.V3c.Types.{load_bytes}
use rtp_benchmarks.Util.Files.{concat}
use rtp_benchmarks.Uvgrtp.Sender.{Event, push_frame, pace}
use rtp_benchmarks.Uvgrtp.Sender.Sends.{pushed, load_bytes-middle, pushed-pace}
use rtp_benchmarks.Uvgrtp.LatencySender.{
  Step, and_then, ChunkState, after_chunk, latency_chunk, latency_chunks,
}

-- What a sender may push of a list when the library accepts the frame number `n` if `push n`: up to
-- the first that is refused, and whether none is.
abbrev pub up_to_refused : {A : Type 0} → (ℕ → Bool) → ℕ → List A → List A × Bool
up_to_refused push n [] = ([], true)
up_to_refused push n (x ∷ xs) =
    if push n
    then (x ∷ (up_to_refused push (n + 1) xs).0, (up_to_refused push (n + 1) xs).1)
    else (x ∷ [], false)

-- What a loop does that pushes the given payloads and then goes on or not.
abbrev pub Does : {S : Type 0} → List (List ℕ) × Bool → Result (Step S) → Type 0
Does {S = S} (payloads, running) r =
    (events : List Event) × (s : S) × (r ≡ ok (events, s, running)) × (pushed events ≡ payloads)

module _ (push : ℕ → Bool) (now after runtime : ℕ → ℕ) (period : ℕ) (tail : List ℕ) where
  latency_chunks-Does :
      (frames : List (List ℕ)) (pre mem : List ℕ) (s : ChunkState)
      → mem ≡ pre ++ (concat frames ++ tail)
      → s.offset ≡ length pre
      → length mem < 2 ^ 64
      → s.current_frame + length frames < 2 ^ 64
      → Does
          (up_to_refused push s.current_frame frames)
          (latency_chunks push now after runtime period mem (map length frames) s)
  unfolding latency_chunks latency_chunk after_chunk and_then
  latency_chunks-Does [] pre mem s em eo hm hc = ([], s, refl, refl)
  latency_chunks-Does (frame ∷ frames) pre mem s em eo hm hc =
      let l1 = length-append {0} pre ((frame ++ concat frames) ++ tail) in
      let l2 = length-append {0} (frame ++ concat frames) tail in
      let l3 = length-append {0} frame (concat frames) in
      let l4 = length-append {0} pre frame in
      let m = ap (length {A = ℕ}) em in
      let regroup : mem ≡ pre ++ (frame ++ (concat frames ++ tail)) = em ∙ simp append_assoc in
      let moved : mem ≡ (pre ++ frame) ++ (concat frames ++ tail) = em ∙ simp append_assoc in
      let here : load_bytes mem s.offset (length frame) ≡ ok frame =
        rw (eo, regroup) (load_bytes-middle pre frame (concat frames ++ tail)) in
      let next : ChunkState = record {
        current_frame = u64 (s.current_frame + 1);
        offset = add64 s.offset (length frame);
      } in
      let (events, t, runs, same) =
        latency_chunks-Does frames (pre ++ frame) mem next moved (omega arith) hm (omega arith) in
      let number : u64 (s.current_frame + 1) ≡ s.current_frame + 1 = omega arith in
      elim (Bool-cases (push s.current_frame)) [
        | inl e ↦
            let run = runs ∙ ap (λ n. ok (events, t, (up_to_refused push n frames).1)) number in
            let waits = pushed-pace period next.current_frame (runtime s.current_frame) events in
            rw (e, here)
              (
                push_frame frame ∷ pace period next.current_frame (runtime s.current_frame)
                    ++ events,
                t,
                rw run refl,
                ap (λ l. frame ∷ l)
                    (waits ∙ same ∙ ap (λ n. (up_to_refused push n frames).0) number),
              )
        | inr e ↦ rw (e, here) (push_frame frame ∷ [], s, refl, refl)
      ]

  -- With the sizes of the frames that the file begins with, the loop pushes those frames, in order,
  -- up to the first that the library refuses, and nothing behind it, and ends well exactly when none
  -- is refused; it reads nothing out of the file's bounds.
  pub latency_chunks-pushed :
      (frames : List (List ℕ))
      → length (concat frames ++ tail) < 2 ^ 64
      → length frames < 2 ^ 64
      → Does (up_to_refused push 0 frames) (
          latency_chunks push now after runtime period
            (concat frames ++ tail)
            (map length frames)
            (record { current_frame = 0; offset = 0 }))
  latency_chunks-pushed frames h k =
      latency_chunks-Does frames [] (concat frames ++ tail)
        (record { current_frame = 0; offset = 0 }) refl refl h (omega arith)
