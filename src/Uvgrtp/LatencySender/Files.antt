-- ===== src/Uvgrtp/LatencySender/Files.antt =====
-- What the latency sender of uvgRTP sends of a whole file.
use rtp_benchmarks.Common.{
  ℕ, ◌+◌, ◌^◌, ◌≤◌, ◌<◌, ◌≡◌, refl, sym, ap, ◌∙◌, Bool, true, false, List, [], ◌∷◌, ◌++◌, map, some,
  ok, arith, All, length, ◌==◌, Bool-cases, inl, inr,
}
use rtp_benchmarks.V3c.Types.{empty_file_map, v3c_ad}
use rtp_benchmarks.V3c.Mmap.Stream.{
  Sample, stream_bytes, IsWellFormed, file_samples, mmap_v3c_file-file_samples,
}
use rtp_benchmarks.V3c.Write.Units.{block_of}
use rtp_benchmarks.Util.Files.{concat}
use rtp_benchmarks.Uvgrtp.Sender.{Event}
use rtp_benchmarks.Uvgrtp.Sender.Sends.{pushed}
use rtp_benchmarks.Uvgrtp.AtlasSender.Sends.{kept_nals}
use rtp_benchmarks.Uvgrtp.VpccSender.Sends.{slice, all_nals}
use rtp_benchmarks.Uvgrtp.VpccSender.Places.{units_of, all_nals_of, HasByte, file_samples-Hold}
use rtp_benchmarks.Uvgrtp.VpccSender.Delivers.{length_le_total, stream_total_le}
use rtp_benchmarks.Uvgrtp.SenderMain.Delivers.{tiles, kept_nals-tiles}
use rtp_benchmarks.Uvgrtp.LatencySender.Chunks.{up_to_refused, latency_chunks-pushed}
use rtp_benchmarks.Uvgrtp.LatencySender.Atlas.{latency_atlas_units-IsSent}
use rtp_benchmarks.Uvgrtp.LatencySender.Runs.{exit_code, first_atlas, latency_atlas, latency_file}

up_to_refused-map :
    {A B : Type 0} (f : A → B) (push : ℕ → Bool) (n : ℕ) (xs : List A)
    → up_to_refused push n (map f xs)
      ≡ (map f (up_to_refused push n xs).0, (up_to_refused push n xs).1)
up_to_refused-map f push n [] = refl
up_to_refused-map f push n (x ∷ xs) = elim (Bool-cases (push n)) [
  | inl e ↦ rw (e, up_to_refused-map f push (n + 1) xs) refl
  | inr e ↦ rw e refl
]

-- EXIT_SUCCESS, or EXIT_FAILURE when a push has been refused.
abbrev pub code_of : Bool → ℕ
code_of true = 0
code_of false = 1

exit_code_lem {ℓ} :
    {S : Type ℓ} (events : List Event) (s : S) (running : Bool)
    → exit_code (events, s, running) ≡ (code_of running, events)
unfolding exit_code
exit_code_lem events s true = refl
exit_code_lem events s false = refl

module _ (push : ℕ → Bool) (now after runtime : ℕ → ℕ) (period : ℕ) where
  -- With a file of frames, perhaps with more bytes behind them, and the list of their sizes, which is
  -- not empty, the latency sender pushes the frames, in order, up to the first that the library
  -- refuses, and ends with EXIT_SUCCESS exactly when none is refused.
  pub latency_file-frames :
      (frames : List (List ℕ)) (tail : List ℕ)
      → 1 ≤ length frames
      → length (concat frames ++ tail) < 2 ^ 64
      → length frames < 2 ^ 64
      → (events : List Event) × (latency_file push now after runtime period
            (some (concat frames ++ tail))
            (map length frames)
          ≡ ok (code_of (up_to_refused push 0 frames).1, events))
        × (pushed events ≡ (up_to_refused push 0 frames).0)
  unfolding latency_file
  latency_file-frames [] tail b h k = absurd (omega arith)
  latency_file-frames (frame ∷ frames) tail b h k =
      let (events, s, runs, pushes) =
        latency_chunks-pushed push now after runtime period tail (frame ∷ frames) h k in
      let filled : (length (map length (frame ∷ frames)) == 0) ≡ false = ground arith in
      (
        events,
        rw (filled, runs)
            (ap ok (exit_code_lem events s (up_to_refused push 0 (frame ∷ frames)).1)),
        pushes,
      )

  -- On a file that is a first byte for three-byte sizes and then well formed samples, in which each NAL
  -- unit of the atlas units has a byte, the latency sender reads the whole file and pushes, in the
  -- order of the file, the bytes of those NAL units of the atlas units that have a type below 30, up to
  -- the first that the library refuses; it ends with EXIT_SUCCESS exactly when none is refused.
  pub latency_atlas-tiles :
      (ss : List Sample) (b : ℕ)
      → All IsWellFormed ss
      → All HasByte (all_nals_of v3c_ad ss)
      → 64 ≤ b
      → b < 96
      → length (stream_bytes ss) + 2 ^ 27 < 2 ^ 64
      → (events : List Event) × (latency_atlas push now after runtime period
            (some (b ∷ stream_bytes ss))
          ≡ ok (
            code_of (up_to_refused push 0 (tiles (map block_of (all_nals_of v3c_ad ss)))).1,
            events,
          ))
        × (pushed events ≡ (up_to_refused push 0 (tiles (map block_of (all_nals_of v3c_ad ss)))).0)
  unfolding latency_atlas
  latency_atlas-tiles ss b w h lo hi small =
      let cbuf = b ∷ stream_bytes ss in
      let units = units_of v3c_ad (file_samples 1 ss empty_file_map) in
      let nals = kept_nals cbuf (all_nals units) [] in
      let bound = stream_total_le ss w in
      let few = length_le_total (all_nals_of v3c_ad ss) h in
      let parses = mmap_v3c_file-file_samples ss b empty_file_map w lo hi small in
      let (inside, bytes, total, count, nonempty) =
        file_samples-Hold cbuf v3c_ad 1 ss empty_file_map [] (omega arith) w h refl
          (record {}, refl, refl, refl, record {}) in
      let sent =
        latency_atlas_units-IsSent push now after runtime period cbuf units first_atlas inside
          (omega arith) in
      let same : map (slice cbuf) nals ≡ tiles (map block_of (all_nals_of v3c_ad ss)) =
        kept_nals-tiles cbuf (all_nals units) inside nonempty ∙ ap tiles bytes in
      let cut = sym (up_to_refused-map (slice cbuf) push 0 nals) ∙ ap (up_to_refused push 0) same in
      (
        sent.events,
        rw (parses, sent.runs)
            (ap ok (
              exit_code_lem sent.events sent.last (up_to_refused push 0 nals).1
              ∙ ap (λ r. (code_of r.1, sent.events)) cut)),
        sent.pushes ∙ ap (λ r. r.0) cut,
      )
