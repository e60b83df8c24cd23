-- ===== src/Uvgrtp/Sender/Encoded.antt =====
-- From util/test_file_creation.cc to uvgrtp/sender.cc: the frames that the encoder made are the
-- frames that the sender pushes.
use rtp_benchmarks.Common.{
  ℕ, ◌^◌, ◌<◌, ◌≡◌, refl, sym, ap, ◌∙◌, Bool, List, [], ◌∷◌, ◌++◌, append-nil, append_assoc, map,
  none, some, ok, arith, All, All-append, length,
}
use rtp_benchmarks.Util.Chunks.{sizes_bytes, get_chunk_sizes, get_chunk_sizes-sizes_bytes}
use rtp_benchmarks.Util.Files.{
  Answer, failed, chunks, Files, concat, concat-append, frames_of, IsAnswered, IsFrameAnswer,
  encode_pictures, encode_pictures-frames, grown,
}
use rtp_benchmarks.Uvgrtp.Sender.{Event, sender_thread}
use rtp_benchmarks.Uvgrtp.Sender.Sends.{pushed, written, IsAccepted, sender_thread-frames}

sizes_bytes-append :
    (xs ys : List (List ℕ))
    → sizes_bytes (map length (xs ++ ys))
      ≡ sizes_bytes (map length xs) ++ sizes_bytes (map length ys)
unfolding sizes_bytes
sizes_bytes-append [] ys = refl
sizes_bytes-append (x ∷ xs) ys = rw (sizes_bytes-append xs ys, append_assoc)

abbrev pub empty_files : Files
empty_files = record { output = []; memory = [] }

grown-grown :
    (xs ys : List (List ℕ)) → grown (grown empty_files xs) ys ≡ grown empty_files (xs ++ ys)
grown-grown xs ys = rw (concat-append xs ys, sizes_bytes-append xs ys) refl

frames_of_sizes :
    (answers : List Answer)
    → All IsAnswered answers
    → All (λ x. x < 2 ^ 64) (map length (frames_of answers))
frames_of_sizes [] a = tt
frames_of_sizes (failed ∷ answers) (h, a) = absurd h
frames_of_sizes (chunks none ∷ answers) (h, a) = frames_of_sizes answers a
frames_of_sizes (chunks (some parts) ∷ answers) (h, a) = (h, frames_of_sizes answers a)

frame-IsAnswered : (answers : List Answer) → All IsFrameAnswer answers → All IsAnswered answers
frame-IsAnswered [] a = tt
frame-IsAnswered (failed ∷ answers) (h, a) = absurd h
frame-IsAnswered (chunks none ∷ answers) (h, a) = absurd h
frame-IsAnswered (chunks (some parts) ∷ answers) (h, a) = (h, frame-IsAnswered answers a)

frames_of-append : (xs ys : List Answer) → frames_of (xs ++ ys) ≡ frames_of xs ++ frames_of ys
frames_of-append [] ys = refl
frames_of-append (failed ∷ xs) ys = frames_of-append xs ys
frames_of-append (chunks none ∷ xs) ys = frames_of-append xs ys
frames_of-append (chunks (some parts) ∷ xs) ys = ap (λ l. concat parts ∷ l) (frames_of-append xs ys)

-- The frames that an encoder gives for some pictures and then when it is drained are written to the
-- two files; the sender that maps the one file and reads its sizes from the other pushes exactly
-- those frames, in their order, when the library accepts each push, and writes the number of their
-- bytes as the one result.
pub sender_thread-encode_pictures :
    (push : ℕ → Bool) (now : ℕ → ℕ) (period : ℕ) (pictures drained more : List Answer)
    → All IsAnswered pictures
    → All IsFrameAnswer drained
    → length (concat (frames_of (pictures ++ drained))) < 2 ^ 64
    → length (frames_of (pictures ++ drained)) < 2 ^ 64
    → IsAccepted push 0 (length (frames_of (pictures ++ drained)))
    → (files : Files) × (events : List Event) × (encode_pictures pictures
          (drained ++ (chunks none ∷ more))
          empty_files
        ≡ some (0, files))
      × (sender_thread push now period files.output (get_chunk_sizes (some files.memory) [])
          ≡ ok events)
      × (pushed events ≡ frames_of (pictures ++ drained))
      × (written events ≡ length files.output ∷ [])
sender_thread-encode_pictures push now period pictures drained more a d small few ok_pushes =
    let frames : List (List ℕ) = frames_of (pictures ++ drained) in
    let encoded =
      encode_pictures-frames pictures drained more empty_files a d
      ∙ ap (λ f. some (0, f))
          (grown-grown (frames_of pictures) (frames_of drained)
            ∙ ap (grown empty_files) (sym (frames_of-append pictures drained))) in
    let sizes : get_chunk_sizes (some (sizes_bytes (map length frames))) [] ≡ map length frames =
      ap (λ l. get_chunk_sizes (some l) []) (sym (append-nil (sizes_bytes (map length frames))))
      ∙ get_chunk_sizes-sizes_bytes (map length frames) [] []
          (frames_of_sizes (pictures ++ drained)
            (All-append IsAnswered pictures drained a (frame-IsAnswered drained d)))
          (omega arith) in
    let (events, run, same, total) =
      sender_thread-frames push now period [] frames (rw (append-nil (concat frames)) small) few
        ok_pushes in
    (
      grown empty_files frames,
      events,
      encoded,
      rw sizes (rw (append-nil (concat frames)) at run),
      same,
      total,
    )
