-- ===== src/Util/Files.antt =====
-- util/test_file_creation.cc: the encoder's frames go to the output file, and the size of each to
-- the chunk file. What kvazaar answers to each call of `encoder_encode` is an argument.
use rtp_benchmarks.Common.{
  ℕ, ◌+◌, ◌^◌, ◌<◌, ◌≡◌, refl, sym, ap, ◌∙◌, Bool, true, false, List, [], ◌∷◌, ◌++◌, append-nil,
  append_assoc, Option, none, some, map, arith, All, length, length-append, add64,
}
use rtp_benchmarks.Util.Chunks.{to_bytes, sizes_bytes}

-- The answer of one call: a failure, or the list of data chunks, `none` for a null pointer.
pub data Answer : Type 0 where
  failed : Answer
  chunks : Option (List (List ℕ)) → Answer

-- `outputFile` and `memoryFile`.
pub record Files : Type 0 where
  pub output : List ℕ
  pub memory : List ℕ

abbrev pub exit_success : ℕ
exit_success = 0

abbrev pub exit_failure : ℕ
exit_failure = 1

-- The sum of the chunks' lengths in a `uint64_t`.
pub written_size : ℕ → List (List ℕ) → ℕ
written_size written [] = written
written_size written (chunk ∷ rest) = written_size (add64 written (length chunk)) rest

pub write_chunks : List (List ℕ) → List ℕ → List ℕ
write_chunks [] output = output
write_chunks (chunk ∷ rest) output = write_chunks rest (output ++ chunk)

-- The result, `rvalue` and the files; the first argument tells whether `input` is a picture.
pub encode_frame : Bool → Answer → ℕ → Files → Bool × ℕ × Files
encode_frame input failed rvalue files = (false, exit_failure, files)
encode_frame false (chunks none) rvalue files = (false, exit_success, files)
encode_frame true (chunks none) rvalue files = (true, rvalue, files)
encode_frame input (chunks (some parts)) rvalue files = (
  true,
  rvalue,
  record {
    output = write_chunks parts files.output;
    memory = files.memory ++ to_bytes 8 (written_size 0 parts);
  },
)

-- On with the loop, or out of it with `rvalue`.
on_frame : Bool × ℕ × Files → (ℕ → Files → Option (ℕ × Files)) → Option (ℕ × Files)
on_frame (true, rvalue, files) next = next rvalue files
on_frame (false, rvalue, files) next = some (rvalue, files)

-- The last loop, `while (encode_frame(nullptr, ...));`, on the answers that are still to come; with
-- no more of them the encoder would not have stopped.
pub flush : List Answer → ℕ → Files → Option (ℕ × Files)
flush [] rvalue files = none
flush (a ∷ answers) rvalue files = on_frame (encode_frame false a rvalue files) (flush answers)

-- The first loop, one answer to each picture that the input file holds.
pub encode_pictures : List Answer → List Answer → Files → Option (ℕ × Files)
encode_pictures [] answers files = flush answers exit_failure files
encode_pictures (a ∷ pictures) answers files =
    on_frame (encode_frame true a exit_failure files)
      (λ rvalue files'. encode_pictures pictures answers files')

abbrev pub concat : List (List ℕ) → List ℕ
concat [] = []
concat (x ∷ xs) = x ++ concat xs

pub concat-append : (xs ys : List (List ℕ)) → concat (xs ++ ys) ≡ concat xs ++ concat ys
concat-append [] ys = refl
concat-append (x ∷ xs) ys = rw (concat-append xs ys, append_assoc)

-- The frames that the encoder has made, each the chunks of one answer.
abbrev pub frames_of : List Answer → List (List ℕ)
frames_of [] = []
frames_of (failed ∷ answers) = frames_of answers
frames_of (chunks none ∷ answers) = frames_of answers
frames_of (chunks (some parts) ∷ answers) = concat parts ∷ frames_of answers

-- The encoder does not fail, and its frames are not longer than a size can tell.
abbrev pub IsAnswered : Answer → Type 0
IsAnswered failed = ⊥
IsAnswered (chunks none) = Unit {0}
IsAnswered (chunks (some parts)) = length (concat parts) < 2 ^ 64

-- It gives a frame.
abbrev pub IsFrameAnswer : Answer → Type 0
IsFrameAnswer failed = ⊥
IsFrameAnswer (chunks none) = ⊥
IsFrameAnswer (chunks (some parts)) = length (concat parts) < 2 ^ 64

zero-add : (n : ℕ) → 0 + n ≡ n
zero-add n = omega arith

written_size-concat :
    (parts : List (List ℕ)) (n : ℕ)
    → n + length (concat parts) < 2 ^ 64
    → written_size n parts ≡ n + length (concat parts)
unfolding written_size
written_size-concat [] n h = omega arith
written_size-concat (x ∷ xs) n h =
    let l = length-append {0} x (concat xs) in
    let e : add64 n (length x) ≡ n + length x = omega arith in
    rw e (written_size-concat xs (n + length x) (omega arith) ∙ (omega arith))

write_chunks-concat :
    (parts : List (List ℕ)) (out : List ℕ) → write_chunks parts out ≡ out ++ concat parts
unfolding write_chunks
write_chunks-concat [] out = sym (append-nil out)
write_chunks-concat (x ∷ xs) out =
    write_chunks-concat xs (out ++ x) ∙ append_assoc out x (concat xs)

-- What one call that gives a frame does to the files.
encode_frame-frame :
    (input : Bool) (parts : List (List ℕ)) (rvalue : ℕ) (files : Files)
    → length (concat parts) < 2 ^ 64
    → encode_frame input (chunks (some parts)) rvalue files ≡ (
      true,
      rvalue,
      record {
        output = files.output ++ concat parts;
        memory = files.memory ++ to_bytes 8 (length (concat parts));
      },
    )
unfolding encode_frame
encode_frame-frame true parts rvalue files h = rw (
  write_chunks-concat parts files.output,
  written_size-concat parts 0 (omega arith) ∙ zero-add (length (concat parts)),
)
encode_frame-frame false parts rvalue files h = rw (
  write_chunks-concat parts files.output,
  written_size-concat parts 0 (omega arith) ∙ zero-add (length (concat parts)),
)

encode_frame-none :
    (rvalue : ℕ) (files : Files)
    → encode_frame true (chunks none) rvalue files ≡ (true, rvalue, files)
unfolding encode_frame
encode_frame-none rvalue files = refl

-- The files behind which the frames have been written.
abbrev pub grown : Files → List (List ℕ) → Files
grown files frames = record {
  output = files.output ++ concat frames;
  memory = files.memory ++ sizes_bytes (map length frames);
}

grown-nil : (files : Files) → grown files [] ≡ files
unfolding sizes_bytes
grown-nil files = rw (append-nil files.output, append-nil files.memory)

grown-cons :
    (files : Files) (frame : List ℕ) (frames : List (List ℕ))
    → grown
        (record {
          output = files.output ++ frame;
          memory = files.memory ++ to_bytes 8 (length frame);
        })
        frames
      ≡ grown files (frame ∷ frames)
unfolding sizes_bytes
grown-cons files frame frames = rw (
  append_assoc files.output frame (concat frames),
  append_assoc files.memory (to_bytes 8 (length frame)) (sizes_bytes (map length frames)),
)

flush-frames :
    (answers : List Answer) (more : List Answer) (rvalue : ℕ) (files : Files)
    → All IsFrameAnswer answers
    → flush (answers ++ (chunks none ∷ more)) rvalue files
      ≡ some (exit_success, grown files (frames_of answers))
unfolding flush on_frame
flush-frames [] more rvalue files a = unfold encode_frame in rw (grown-nil files)
flush-frames (failed ∷ answers) more rvalue files (h, a) = absurd h
flush-frames (chunks none ∷ answers) more rvalue files (h, a) = absurd h
flush-frames (chunks (some parts) ∷ answers) more rvalue files (h, a) =
    rw (encode_frame-frame false parts rvalue files h) (
      flush-frames answers more rvalue _ a
      ∙ ap (λ f. some (exit_success, f)) (grown-cons files (concat parts) (frames_of answers)))

-- An encoder that answers each picture with a frame or with nothing yet, and then gives the frames
-- that it still holds and ends: the run succeeds, the output file is the frames one behind the
-- other, and the chunk file their sizes, whatever the answers after the end would be.
pub encode_pictures-frames :
    (pictures drained more : List Answer) (files : Files)
    → All IsAnswered pictures
    → All IsFrameAnswer drained
    → encode_pictures pictures (drained ++ (chunks none ∷ more)) files
      ≡ some (exit_success, grown (grown files (frames_of pictures)) (frames_of drained))
unfolding encode_pictures on_frame
encode_pictures-frames [] drained more files a d =
    flush-frames drained more exit_failure files d
    ∙ ap (λ f. some (exit_success, grown f (frames_of drained))) (sym (grown-nil files))
encode_pictures-frames (failed ∷ pictures) drained more files (h, a) d = absurd h
encode_pictures-frames (chunks none ∷ pictures) drained more files (h, a) d =
    rw (encode_frame-none exit_failure files)
      (encode_pictures-frames pictures drained more files a d)
encode_pictures-frames (chunks (some parts) ∷ pictures) drained more files (h, a) d =
    rw (encode_frame-frame true parts exit_failure files h) (
      encode_pictures-frames pictures drained more _ a d
      ∙ ap (λ f. some (exit_success, grown f (frames_of drained)))
          (grown-cons files (concat parts) (frames_of pictures)))
