-- ===== src/Live555/Framed/Chunks.antt =====
-- How `sendFrame` of util/live555_util.cc sends a whole chunk.
use rtp_benchmarks.Common.{
  ℕ, suc, ◌+◌, ◌-◌, ◌/◌, ◌^◌, ◌≤◌, ◌<◌, ◌≡◌, refl, sym, ap, ◌∙◌, false, List, [], ◌∷◌, ◌++◌,
  append-nil, map, none, some, ok, arith, All, All-append, length, length-append, take, drop, ◌==◌,
  inl,
}
use rtp_benchmarks.Util.Files.{concat}
use rtp_benchmarks.Live555.Framed.{
  Piece, FramedSource, max_write_size, next_chunk, next_nal, send_frame,
}
use rtp_benchmarks.Live555.Framed.Parts.{
  send_frames, nal_bytes, sent, Sends, done, call, Sends-append, Sends-send_frames, IsSent,
  Sends-IsSent,
}

-- A NAL unit in the file, of at least one byte, whose size is an `int`.
abbrev pub IsInFile : List ℕ → Piece → Type 0
IsInFile mem nal = (1 ≤ nal.0) × (nal.0 < 2 ^ 31) × (nal.1 + nal.0 ≤ length mem)

abbrev pub join : List (List (List ℕ)) → List (List ℕ)
join [] = []
join (ps ∷ pss) = ps ++ join pss

-- The calls for the NAL units, one for each part.
abbrev pub calls : List Piece → ℕ
calls [] = 0
calls (nal ∷ nals) = suc ((nal.0 - 1) / max_write_size) + calls nals

-- The first call of a NAL unit takes it from the queue.
pop :
    (mem : List ℕ) (nal : Piece) (nals : List Piece) (s : FramedSource)
    → 1 ≤ s.len
    → ((chunk : Piece) × (s.c_chunk ≡ some chunk))
    → s.c_nal ≡ none
    → s.nals ≡ nal ∷ nals
    → send_frame mem s ≡ send_frame mem (record s { nals = nals; c_nal = some nal; c_nal_off = 0 })
unfolding send_frame next_chunk next_nal
pop mem nal nals s started (chunk, c) n q =
    let f : (s.len == 0) ≡ false = ground arith in rw (f, c, n, q) refl

-- The first part of a NAL unit comes with the call that takes it from the queue.
popped :
    (mem : List ℕ) (s t u : FramedSource) (parts : List (List ℕ))
    → send_frame mem s ≡ send_frame mem t
    → 1 ≤ length parts
    → Sends mem t parts u
    → Sends mem s parts u
popped mem s t u parts e h done = absurd (omega arith)
popped mem s t u parts e h (call f rest) = call (e ∙ f) rest

-- The parts of the NAL units of a chunk, and the members behind them.
abbrev IsSentChunk : List ℕ → List Piece → FramedSource → Type 0
IsSentChunk mem nals s =
    (parts : List (List ℕ)) × (t : FramedSource) × Sends mem s parts t
    × (length parts ≡ calls nals)
    × ((groups : List (List (List ℕ))) × (join groups ≡ parts)
        × (map concat groups ≡ map (nal_bytes mem) nals))
    × All (λ p. length p ≤ max_write_size) parts
    × (t.c_chunk ≡ none)
    × (t.nals ≡ [])

one_nal :
    (mem : List ℕ) (nal : Piece) (nals : List Piece) (s : FramedSource)
    → 1 ≤ s.len
    → ((chunk : Piece) × (s.c_chunk ≡ some chunk))
    → s.c_nal ≡ none
    → s.nals ≡ nal ∷ nals
    → IsInFile mem nal
    → IsSent mem nal
        (record s { nals = nals; c_nal = some nal; c_nal_off = 0 })
        (suc ((nal.0 - 1) / max_write_size))
one_nal mem nal nals s started c n q (one, int, inside) =
    Sends-IsSent ((nal.0 - 1) / max_write_size) mem nal
      (record s { nals = nals; c_nal = some nal; c_nal_off = 0 })
      (started, c, refl, inside, omega arith, inl refl) (omega arith) (omega arith) int

-- A NAL unit from its beginning on.
whole : (mem : List ℕ) (nal : Piece) → take (nal.0 - 0) (drop (nal.1 + 0) mem) ≡ nal_bytes mem nal
whole mem nal =
    let e : nal.0 - 0 ≡ nal.0 = omega arith in
    let f : nal.1 + 0 ≡ nal.1 = omega arith in rw (e, f) refl

sent-more :
    (off : ℕ) (next : Piece) (nals : List Piece) (u : FramedSource)
    → u.nals ≡ next ∷ nals
    → sent off u ≡ record u { c_nal_off = off; c_nal = none }
sent-more off next nals u e =
    let f : (length u.nals == 0) ≡ false = rw e (ground arith) in rw f refl

Sends-IsSentChunk :
    (mem : List ℕ) (nal : Piece) (nals : List Piece) (s : FramedSource)
    → 1 ≤ s.len
    → ((chunk : Piece) × (s.c_chunk ≡ some chunk))
    → s.c_nal ≡ none
    → s.nals ≡ nal ∷ nals
    → All (IsInFile mem) (nal ∷ nals)
    → IsSentChunk mem (nal ∷ nals) s
Sends-IsSentChunk mem nal [] s started c n q (inside, rest) =
    let (parts, off, runs, count, bytes, small) = one_nal mem nal [] s started c n q inside in
    (
      parts,
      sent off (record s { nals = []; c_nal = some nal; c_nal_off = 0 }),
      popped mem s _ _ parts (pop mem nal [] s started c n q) (omega arith) runs,
      omega arith,
      (parts ∷ [], append-nil parts, ap (λ l. l ∷ []) (bytes ∙ whole mem nal)),
      small,
      refl,
      refl,
    )
Sends-IsSentChunk mem nal (next ∷ nals) s started c n q (inside, rest) =
    let (parts, off, runs, count, bytes, small) =
      one_nal mem nal (next ∷ nals) s started c n q inside in
    let t : FramedSource = record s { nals = next ∷ nals; c_nal = none; c_nal_off = off } in
    let u : FramedSource = record s { nals = next ∷ nals; c_nal = some nal; c_nal_off = 0 } in
    let left : sent off u ≡ t = sent-more off next nals u refl in
    let first : Sends mem u parts t = rw left at runs in
    let (more, last, runs', count', (groups, joined, bytes'), small', ended, empty) =
      Sends-IsSentChunk mem next nals t started c refl refl rest in
    (
      parts ++ more,
      last,
      Sends-append mem s t last parts more
          (popped mem s _ _ parts (pop mem nal (next ∷ nals) s started c n q) (omega arith) first)
          runs',
      omega (arith, length-append {0} parts more),
      (
        parts ∷ groups,
        ap (λ l. parts ++ l) joined,
        rw bytes' (ap (λ l. l ∷ map (nal_bytes mem) (next ∷ nals)) (bytes ∙ whole mem nal)),
      ),
      All-append (λ p. length p ≤ max_write_size) parts more small small',
      ended,
      empty,
    )

-- From the start of a chunk that has been split into NAL units of at least one and less than 2 ^ 31
-- bytes, which lie in the file, `sendFrame` gives live555 the NAL units one behind the other, each in
-- parts of its own of at most 1444 bytes that together are its bytes, with one call for each part; then
-- the chunk is done.
pub send_frames-chunk :
    (mem : List ℕ) (nal : Piece) (nals : List Piece) (s : FramedSource)
    → 1 ≤ s.len
    → ((chunk : Piece) × (s.c_chunk ≡ some chunk))
    → s.c_nal ≡ none
    → s.nals ≡ nal ∷ nals
    → All (IsInFile mem) (nal ∷ nals)
    → (parts : List (List ℕ)) × (t : FramedSource) × (send_frames (calls (nal ∷ nals)) mem s
        ≡ ok (parts, t))
      × ((groups : List (List (List ℕ))) × (join groups ≡ parts)
          × (map concat groups ≡ map (nal_bytes mem) (nal ∷ nals)))
      × All (λ p. length p ≤ max_write_size) parts
      × (t.c_chunk ≡ none)
      × (t.nals ≡ [])
send_frames-chunk mem nal nals s started c n q inside =
    let (parts, t, runs, count, bytes, small, ended, empty) =
      Sends-IsSentChunk mem nal nals s started c n q inside in
    (
      parts,
      t,
      ap (λ k. send_frames k mem s) (sym count) ∙ Sends-send_frames mem s t parts runs,
      bytes,
      small,
      ended,
      empty,
    )
