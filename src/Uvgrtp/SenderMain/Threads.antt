-- ===== src/Uvgrtp/SenderMain/Threads.antt =====
-- The threads of uvgrtp/sender.cc: what they send and on which ports.
use rtp_benchmarks.Common.{
  ℕ, ◌+◌, ◌^◌, ◌≤◌, ◌<◌, ◌≡◌, ◌≢◌, refl, sym, ◌∙◌, true, false, List, [], ◌∷◌, ◌++◌, map, some, ok,
  arith, All, length, ◌==◌,
}
use rtp_benchmarks.Util.Files.{concat}
use rtp_benchmarks.Uvgrtp.Sender.Sends.{pushed, written, sender_thread-frames}
use rtp_benchmarks.Uvgrtp.SenderMain.{Answers, Thread, thread_port, run_threads, send_chunks}

-- The library accepts each push of a thread.
abbrev pub IsAccepting : Answers → Type 0
IsAccepting a = (n : ℕ) → a.push n ≡ true

-- A thread that has sent these frames, and has reported the number of their bytes.
abbrev pub HasSent : List (List ℕ) → Thread → Type 0
HasSent frames t = (pushed t.events ≡ frames) × (written t.events ≡ length (concat frames) ∷ [])

-- No two of the threads share a local port, nor a remote one.
abbrev pub HavePorts : List Thread → Type 0
HavePorts [] = 0 ≤ 0
HavePorts (t ∷ ts) =
    All
      (λ u.
        (t.thread_local_port ≢ u.thread_local_port) × (t.thread_remote_port ≢ u.thread_remote_port))
      ts
    × HavePorts ts

-- The threads have the ports of their numbers, from `n` on.
abbrev Numbered : ℕ → ℕ → ℕ → List Thread → Type 0
Numbered local_port remote_port n [] = n ≤ n
Numbered local_port remote_port n (t ∷ ts) =
    (t.thread_local_port ≡ thread_port local_port n)
    × (t.thread_remote_port ≡ thread_port remote_port n)
    × Numbered local_port remote_port (n + 1) ts

thread_port-ne : (port i j : ℕ) → i < j → j < 2 ^ 15 → thread_port port i ≢ thread_port port j
unfolding thread_port
thread_port-ne port i j h k = λ e. omega arith

module _ (local_port remote_port : ℕ) where
  others-differ :
      (i n : ℕ) (ts : List Thread) (t : Thread)
      → i < n
      → n + length ts ≤ 2 ^ 15
      → t.thread_local_port ≡ thread_port local_port i
      → t.thread_remote_port ≡ thread_port remote_port i
      → Numbered local_port remote_port n ts
      → All
          (λ u.
            (t.thread_local_port ≢ u.thread_local_port)
            × (t.thread_remote_port ≢ u.thread_remote_port))
          ts
  others-differ i n [] t h k e f m = record {}
  others-differ i n (u ∷ us) t h k e f (l, r, m) = (
    (
      λ same. thread_port-ne local_port i n h (omega arith) (sym e ∙ same ∙ l),
      λ same. thread_port-ne remote_port i n h (omega arith) (sym f ∙ same ∙ r),
    ),
    others-differ i (n + 1) us t (omega arith) (omega arith) e f m,
  )

  Numbered-HavePorts :
      (n : ℕ) (ts : List Thread)
      → n + length ts ≤ 2 ^ 15
      → Numbered local_port remote_port n ts
      → HavePorts ts
  Numbered-HavePorts n [] h m = omega arith
  Numbered-HavePorts n (t ∷ ts) h (l, r, m) = (
    others-differ n (n + 1) ts t (omega arith) (omega arith) l r m,
    Numbered-HavePorts (n + 1) ts (omega arith) m,
  )

  run_threads-Numbered :
      (answers : List Answers) (n period : ℕ) (frames : List (List ℕ)) (tail : List ℕ)
      → All IsAccepting answers
      → length (concat frames ++ tail) < 2 ^ 64
      → length frames < 2 ^ 64
      → (threads : List Thread) × (run_threads local_port remote_port period answers n
            (concat frames ++ tail)
            (map length frames)
          ≡ ok threads)
        × All (HasSent frames) threads
        × Numbered local_port remote_port n threads
        × (length threads ≡ length answers)
  unfolding run_threads
  run_threads-Numbered [] n period frames tail a h k = ([], refl, record {}, omega arith, refl)
  run_threads-Numbered (one ∷ answers) n period frames tail (accepts, a) h k =
      let (events, runs, pushes, writes) =
        sender_thread-frames one.push one.now period tail frames h k (λ i l u. accepts i) in
      let (threads, more, sent, numbered, size) =
        run_threads-Numbered answers (n + 1) period frames tail a h k in
      (
        record {
          thread_local_port = thread_port local_port n;
          thread_remote_port = thread_port remote_port n;
          events = events;
        }
            ∷ threads,
        rw (runs, more) refl,
        ((pushes, writes), sent),
        (refl, refl, numbered),
        omega arith,
      )

  -- With a file of frames, perhaps with more bytes behind them, and the list of their sizes, which is
  -- not empty, and a library that accepts each push, the program ends with the code 0; each of its
  -- threads, at most 2 ^ 15, pushes each frame once, in order, and reports the number of their bytes,
  -- and no two of them share a local or a remote port, whatever the first ports are.
  pub send_chunks-frames :
      (answers : List Answers) (period : ℕ) (frames : List (List ℕ)) (tail : List ℕ)
      → 1 ≤ length frames
      → length answers ≤ 2 ^ 15
      → All IsAccepting answers
      → length (concat frames ++ tail) < 2 ^ 64
      → length frames < 2 ^ 64
      → (threads : List Thread) × (send_chunks local_port remote_port period
            (some (concat frames ++ tail))
            (map length frames)
            answers
          ≡ ok (0, threads))
        × All (HasSent frames) threads
        × HavePorts threads
        × (length threads ≡ length answers)
  unfolding send_chunks
  send_chunks-frames answers period [] tail b few a h k = absurd (omega arith)
  send_chunks-frames answers period (frame ∷ frames) tail b few a h k =
      let (threads, runs, sent, numbered, size) =
        run_threads-Numbered answers 0 period (frame ∷ frames) tail a h k in
      let filled : (length (map length (frame ∷ frames)) == 0) ≡ false = ground arith in
      (
        threads,
        rw (filled, runs) refl,
        sent,
        Numbered-HavePorts 0 threads (omega arith) numbered,
        size,
      )
