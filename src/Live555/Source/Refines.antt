-- ===== src/Live555/Source/Refines.antt =====
-- `deliverFrame` of live555/source.cc as a queue of NAL units, which knows of no file.
use rtp_benchmarks.Common.{
  ℕ, zero, suc, ◌+◌, ◌-◌, ◌^◌, ◌≤◌, ◌<◌, ◌≡◌, refl, ap, ◌∙◌, Bool, true, false, List, [], ◌∷◌, ◌++◌,
  map, none, some, ok, arith, All, IsByte, length, length-append, take, take_all, drop, ltb, leb,
  le→leb, ◌==◌, if◌then◌else◌, Bool-cases, inl, inr, min, u32, u64, add64,
}
use rtp_benchmarks.Uvgrtp.Sender.{pace}
use rtp_benchmarks.Live555.Source.Bounds.{frame_sizes-min}
use rtp_benchmarks.Live555.Source.{SourceState, exit_success, delivered, deliver_nal, deliver_frame}
use rtp_benchmarks.Live555.Source.Streams.{
  Coded, code, written, IsNal, IsAt, IsAt-length, IsAt-behind,
}
use rtp_benchmarks.Live555.Source.Queues.{Call, Queue, serve, serve_all, deliver_all}
use rtp_benchmarks.Live555.Source.Nals.{place, find_next_nal-none, find_next_nal-some}

-- The state as a queue, when the file has these NAL units behind the place.
abbrev pub view : List Coded → SourceState → Queue
view codes s = record { nals = map (λ c. c.1) codes; frames = s.current; sent = s.bytes }

-- The file has the NAL units from the place on, and no more is counted than is read.
abbrev pub IsView : List ℕ → List Coded → SourceState → Type 0
IsView mem codes s =
    IsAt mem (place s.next_nal_start) (written codes)
    × All IsNal codes
    × (s.current ≤ place s.next_nal_start)
    × (s.bytes ≤ place s.next_nal_start)

take-append : (n : ℕ) (xs ys : List ℕ) → n ≤ length xs → take n (xs ++ ys) ≡ take n xs
take-append zero xs ys h = refl
take-append (suc n) [] ys h = absurd (omega arith)
take-append (suc n) (x ∷ xs) ys h = ap (λ l. x ∷ l) (take-append n xs ys (omega arith))

take-min : (n : ℕ) (xs : List ℕ) → take (min n (length xs)) xs ≡ take n xs
take-min n xs = elim (Bool-cases (leb n (length xs))) [
  | inl e ↦ let m : min n (length xs) ≡ n = ground arith in rw m refl
  | inr e ↦
      let m : min n (length xs) ≡ length xs = ground arith in
      rw (m, take_all (length xs) xs (omega arith), take_all n xs (ground arith)) refl
]

-- The part of `deliverFrame` behind the search, on a NAL unit that is in the file.
deliver_nal-some :
    (base : ℕ) (mem : List ℕ) (period runtime max_size start : ℕ) (nal rest : List ℕ)
    (s : SourceState)
    → length mem < 2 ^ 32
    → 1 ≤ length nal
    → IsAt mem start (nal ++ rest)
    → s.current ≤ start
    → s.bytes ≤ start
    → deliver_nal base mem period (some (length nal, start)) runtime max_size s
      ≡ ok (
        delivered
            (pace period s.current runtime)
            (min max_size (length nal))
            (length nal - max_size)
            (take max_size nal),
        record s {
          current = if ltb 1500 (length nal) then s.current + 1 else s.current;
          bytes = s.bytes + length nal;
        },
      )
unfolding deliver_nal
deliver_nal-some base mem period runtime max_size start nal rest s small h at few little =
    let size = length nal in
    let total = IsAt-length mem start (nal ++ rest) at in
    let parts = length-append nal rest in
    let narrow : u32 size ≡ size = omega arith in
    let sizes = frame_sizes-min size max_size in
    let g : (size == 0) ≡ false = ground arith in
    let inside : leb (start + min max_size size) (length mem) ≡ true = le→leb _ _ (omega arith) in
    let payload : take (min max_size size) (drop start mem) ≡ take max_size nal =
      ap (take (min max_size size)) at.1
      ∙ take-append (min max_size size) nal rest (omega arith)
      ∙ take-min max_size nal in
    let sum : add64 s.bytes size ≡ s.bytes + size = omega arith in
    let count : u64 (s.current + 1) ≡ s.current + 1 = omega arith in
    rw (narrow, sizes, g, inside, payload, sum, count) refl

deliver_nal-none :
    (base : ℕ) (mem : List ℕ) (period runtime max_size : ℕ) (s : SourceState)
    → deliver_nal base mem period none runtime max_size s ≡ ok (exit_success s.bytes, s)
unfolding deliver_nal
deliver_nal-none base mem period runtime max_size s = refl

-- A call does to the state what the queue says.
abbrev IsServed : ℕ → List ℕ → ℕ → Call → List Coded → SourceState → Type 0
IsServed base mem period call codes s =
    (t : SourceState) × (left : List Coded) × (deliver_frame base mem period call.awaiting
        call.runtime call.max_size s
      ≡ ok ((serve period call (view codes s)).0, t))
    × ((serve period call (view codes s)).1 ≡ view left t)
    × IsView mem left t

deliver_frame-serve :
    (base : ℕ) (mem : List ℕ) (period : ℕ) (awaiting : Bool) (runtime max_size : ℕ)
    (codes : List Coded) (s : SourceState)
    → All IsByte mem
    → length mem < 2 ^ 32
    → IsView mem codes s
    → IsServed base mem period
        (record { awaiting = awaiting; runtime = runtime; max_size = max_size })
        codes
        s
unfolding deliver_frame
deliver_frame-serve base mem period false runtime max_size codes s a small v =
    (s, codes, refl, refl, v)
deliver_frame-serve base mem period true runtime max_size [] s a small (at, all, few, little) =
    let found = find_next_nal-none base mem s.next_nal_start a at in
    let t = record s { next_nal_start = some (place s.next_nal_start) } in
    (
      t,
      [],
      rw found (deliver_nal-none base mem period runtime max_size t),
      refl,
      (at, all, few, little),
    )
deliver_frame-serve base mem period true runtime max_size (coded ∷ rest) s a small
      (at, all, few, little) =
    let start = place s.next_nal_start + length (code coded.0) in
    let found = find_next_nal-some base mem s.next_nal_start coded rest a all at in
    let here =
      IsAt-behind mem (place s.next_nal_start) start (code coded.0) (coded.1 ++ written rest) at
        refl in
    let behind = IsAt-behind mem start (start + length coded.1) coded.1 (written rest) here refl in
    let t = record s { next_nal_start = some (start + length coded.1) } in
    (
      record t {
        current = if ltb 1500 (length coded.1) then s.current + 1 else s.current;
        bytes = s.bytes + length coded.1;
      },
      rest,
      rw found (
          deliver_nal-some base mem period runtime max_size start coded.1 (written rest) t small
            all.0.0 here (omega arith) (omega arith)),
      refl,
      (behind, all.1, ground (arith, all.0.0), omega arith),
    )

deliver_all-serve_all :
    (base : ℕ) (mem : List ℕ) (period : ℕ) (calls : List Call) (codes : List Coded)
    (s : SourceState)
    → All IsByte mem
    → length mem < 2 ^ 32
    → IsView mem codes s
    → deliver_all base mem period calls s ≡ ok (serve_all period calls (view codes s))
deliver_all-serve_all base mem period [] codes s a small v = refl
deliver_all-serve_all base mem period (call ∷ calls) codes s a small v =
    let (t, left, runs, next, v') =
      deliver_frame-serve base mem period call.awaiting call.runtime call.max_size codes s a small
        v in
    let later = deliver_all-serve_all base mem period calls left t a small v' in
    rw (runs, later, next) refl

abbrev pub initial_source : SourceState
initial_source = record { next_nal_start = none; current = 0; bytes = 0 }

-- On a file of less than 2 ^ 32 bytes that has NAL units behind start codes of three or four bytes,
-- none of them with a start code inside or a zero at its end, each sequence of calls answers what
-- the queue of these NAL units answers: each call that live555 waits for gets the first one that is
-- left, cut to the room, and the call behind the last one ends the program with the sum of the sizes.
-- Which start codes the file has and where it lies makes no difference.
pub deliver_all-queue :
    (base : ℕ) (codes : List Coded) (period : ℕ) (calls : List Call)
    → All IsByte (written codes)
    → All IsNal codes
    → length (written codes) < 2 ^ 32
    → deliver_all base (written codes) period calls initial_source
      ≡ ok (serve_all period calls (record { nals = map (λ c. c.1) codes; frames = 0; sent = 0 }))
deliver_all-queue base codes period calls a all small =
    deliver_all-serve_all base (written codes) period calls codes initial_source a small
      ((omega arith, refl), all, omega arith, omega arith)
