-- ===== src/Live555/LatencySender/Safe.antt =====
-- The states that live555's callbacks can bring live555/latency_sender.cc to.
use mathlib.Core.Path.{subst}
use rtp_benchmarks.Common.{
  ℕ, ◌+◌, ◌-◌, ◌/◌, ◌≤◌, ◌<◌, ◌≡◌, ◌≢◌, refl, ◌∙◌, Bool, true, false, List, [], ◌∷◌, Option, none,
  some, ok, arith, All, Ensures, Ensures-ok, >>=-Ensures, ltb, ◌==◌, ==_iff, if◌then◌else◌,
  Bool-cases, inl, inr, u8, u32, u64, add64, bit_and,
}
use rtp_benchmarks.V3c.Types.{load_bytes}
use rtp_benchmarks.Uvgrtp.Sender.{Event, pace}
use rtp_benchmarks.Live555.Source.{find_next_nal, frame_sizes}
use rtp_benchmarks.Live555.LatencySender.{
  Finfo, lookup, erase, LatencyState, initial_state, size_mismatch, Outcome, returned, exited,
  note_nal, deliver_found, latency_deliver_frame, count_received, end_frame, take_frame,
  after_getting_frame,
}

-- The entry of a size.
abbrev pub IsKeyed : ℕ × Finfo → Type 0
IsKeyed (key, info) = info.second ≡ key

-- Each entry of the map stands under its size, fewer than 601 frames are counted, as many at least as
-- intra and inter frames, and the time of all is that of the two kinds.
abbrev pub IsValid : LatencyState → Type 0
IsValid s =
    All IsKeyed s.timestamps
    × (s.frames < 601)
    × (s.nintras + s.ninters ≤ s.frames)
    × (s.frame_total ≡ u64 (s.intra_total + s.inter_total))

-- A callback returns in such a state, or ends the program for another reason than a mismatch.
abbrev pub Safe : Outcome → Type 0
Safe (returned sent t) = IsValid t
Safe (exited reason t) = reason ≢ size_mismatch

erase-IsKeyed : (key : ℕ) (ts : List (ℕ × Finfo)) → All IsKeyed ts → All IsKeyed (erase key ts)
unfolding erase
erase-IsKeyed key [] a = a
erase-IsKeyed key ((k, info) ∷ ts) (h, a) = elim (Bool-cases (k == key)) [
  | inl e ↦ rw e a
  | inr e ↦ rw e (h, erase-IsKeyed key ts a)
]

abbrev IsKeyedAt : ℕ → Option Finfo → Type 0
IsKeyedAt key none = key ≤ key
IsKeyedAt key (some info) = info.second ≡ key

lookup-IsKeyed : (key : ℕ) (ts : List (ℕ × Finfo)) → All IsKeyed ts → IsKeyedAt key (lookup key ts)
unfolding lookup
lookup-IsKeyed key [] a = omega arith
lookup-IsKeyed key ((k, info) ∷ ts) (h, a) = elim (Bool-cases (k == key)) [
  | inl e ↦ rw e (let same = (==_iff k key).0 e in h ∙ same)
  | inr e ↦ rw e (lookup-IsKeyed key ts a)
]

count_received-IsValid :
    (b diff : ℕ) (s : LatencyState)
    → IsValid s
    → All IsKeyed (count_received b diff s).timestamps
      × ((count_received b diff s).frames ≡ s.frames)
      × ((count_received b diff s).nintras + (count_received b diff s).ninters ≤ s.frames + 1)
      × ((count_received b diff s).frame_total
          ≡ u64 ((count_received b diff s).intra_total + (count_received b diff s).inter_total))
unfolding count_received
count_received-IsValid b diff s (k, f, n, t) =
    let nal_type = u8 (bit_and (b / 2) 0x3f) in
    elim (Bool-cases (nal_type == 19)) [
      | inl e ↦ rw e (k, refl, omega arith, omega arith)
      | inr e ↦ elim (Bool-cases (nal_type == 1)) [
        | inl g ↦ rw (e, g) (k, refl, omega arith, omega arith)
        | inr g ↦ rw (e, g) (k, refl, omega arith, t)
      ]
    ]

end_frame-Safe :
    (s : LatencyState)
    → All IsKeyed s.timestamps
    → s.frames < 601
    → s.nintras + s.ninters ≤ s.frames + 1
    → s.frame_total ≡ u64 (s.intra_total + s.inter_total)
    → Safe (end_frame s)
unfolding end_frame
end_frame-Safe s k f n t = elim (Bool-cases (add64 s.frames 1 == 601)) [
  | inl e ↦ rw e (λ p. cc)
  | inr e ↦ let fewer : add64 s.frames 1 < 601 = ground arith in rw e (k, fewer, omega arith, t)
]

take_frame-Safe :
    (o : Option Finfo) (frame_size b now : ℕ) (s : LatencyState)
    → IsKeyedAt frame_size o
    → IsValid s
    → Safe (take_frame o frame_size b now s)
unfolding take_frame
take_frame-Safe none frame_size b now s m v = λ p. cc
take_frame-Safe (some info) frame_size b now s m (k, f, n, t) =
    let same : (info.second == frame_size) ≡ true = ground arith in
    let taken : LatencyState = record s { timestamps = erase frame_size s.timestamps } in
    let (k', f', n', t') =
      count_received-IsValid b (now - info.first) taken
        (erase-IsKeyed frame_size s.timestamps k, f, n, t) in
    rw same
      (end_frame-Safe (count_received b (now - info.first) taken) k' (omega arith) (omega arith) t')

-- Whatever frame comes back, the sink does not end the program because of a size that differs from
-- the noted one.
after_getting_frame-Safe :
    (frame_size b now : ℕ) (s : LatencyState)
    → IsValid s
    → Safe (after_getting_frame frame_size b now s)
unfolding after_getting_frame
after_getting_frame-Safe frame_size b now s v =
    take_frame-Safe (lookup frame_size s.timestamps) frame_size b now s
      (lookup-IsKeyed frame_size s.timestamps v.0) v

module _ (base : ℕ) (mem : List ℕ) (period : ℕ) where
  note_nal-Safe :
      (o : Option Finfo) (size start : ℕ) (waits : List Event) (now max_size : ℕ) (s : LatencyState)
      → IsValid s
      → Ensures Safe (note_nal base mem period o size start waits now max_size s)
  unfolding note_nal
  note_nal-Safe (some info) size start waits now max_size s v = λ p. cc
  note_nal-Safe none size start waits now max_size s (k, f, n, t) =
      >>=-Ensures Safe (load_bytes mem start (frame_sizes (u32 size) max_size).0) _
        (λ payload e. ((refl, k), f, n, t))

  deliver_found-Safe :
      (nal : Option (ℕ × ℕ)) (runtime now max_size : ℕ) (s : LatencyState)
      → IsValid s
      → Ensures Safe (deliver_found base mem period nal runtime now max_size s)
  unfolding deliver_found
  deliver_found-Safe none runtime now max_size s v = v
  deliver_found-Safe (some (size, start)) runtime now max_size s v = elim (Bool-cases (size == 0)) [
    | inl e ↦ rw e v
    | inr e ↦ rw e (
        note_nal-Safe (lookup size s.timestamps) size start (pace period s.current runtime) now
          max_size (record s { current = if ltb 1500 size then u64 (s.current + 1) else s.current })
          v)
  ]

  latency_deliver_frame-Safe :
      (awaiting : Bool) (runtime now max_size : ℕ) (s : LatencyState)
      → IsValid s
      → Ensures Safe (latency_deliver_frame base mem period awaiting runtime now max_size s)
  unfolding latency_deliver_frame
  latency_deliver_frame-Safe false runtime now max_size s v = v
  latency_deliver_frame-Safe true runtime now max_size s v =
      >>=-Ensures Safe (find_next_nal base mem s.next_nal_start) _ (λ (nal, next) e.
        deliver_found-Safe nal runtime now max_size (record s { next_nal_start = some next }) v)

  -- A callback that returns: live555 asks for a frame, or a frame has come back.
  pub data Callback : LatencyState → LatencyState → Type 0 where
    asks :
        (awaiting : Bool) (runtime now max_size : ℕ) (sent : Option (List Event × ℕ × ℕ × List ℕ))
        {s t : LatencyState}
        → latency_deliver_frame base mem period awaiting runtime now max_size s
          ≡ ok (returned sent t)
        → Callback s t
    gets :
        (frame_size b now : ℕ) (sent : Option (List Event × ℕ × ℕ × List ℕ)) {s t : LatencyState}
        → after_getting_frame frame_size b now s ≡ returned sent t
        → Callback s t

  pub data Reachable : LatencyState → Type 0 where
    start : Reachable initial_state
    next : {s t : LatencyState} → Reachable s → Callback s t → Reachable t

  Callback-IsValid : {s t : LatencyState} → Callback s t → IsValid s → IsValid t
  Callback-IsValid {s = s} (asks awaiting runtime now max_size sent e) v =
      Ensures-ok Safe _ (latency_deliver_frame-Safe awaiting runtime now max_size s v) e
  Callback-IsValid {s = s} (gets frame_size b now sent e) v =
      subst Safe e (after_getting_frame-Safe frame_size b now s v)

  -- In every state that any order of callbacks can reach, each noted time stands under the size that
  -- is noted with it, fewer than 601 frames are counted, at least as many as intra and inter frames,
  -- and the time of all frames is that of the two kinds in 64 bits.
  pub Reachable-IsValid : {s : LatencyState} → Reachable s → IsValid s
  Reachable-IsValid start = (tt, omega arith, omega arith, refl)
  Reachable-IsValid (next r c) = Callback-IsValid c (Reachable-IsValid r)

  -- From every state that any order of callbacks can reach, no frame that comes back ends the program
  -- for a mismatch of its size with the noted one.
  pub after_getting_frame_matches :
      {s : LatencyState} (frame_size b now : ℕ) (t : LatencyState)
      → Reachable s
      → after_getting_frame frame_size b now s ≢ exited size_mismatch t
  after_getting_frame_matches {s = s} frame_size b now t r e =
      subst Safe e (after_getting_frame-Safe frame_size b now s (Reachable-IsValid r)) refl
