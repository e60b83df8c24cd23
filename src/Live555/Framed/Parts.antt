-- ===== src/Live555/Framed/Parts.antt =====
-- How `sendFrame` of util/live555_util.cc sends the NAL units of a chunk in parts.
use rtp_benchmarks.Common.{
  ℕ, zero, suc, ◌+◌, ◌-◌, ◌*◌, ◌≤◌, ◌<◌, ◌≡◌, refl, sym, ap, ◌∙◌, true, false, List, [], ◌∷◌, ◌++◌,
  append-nil, none, some, Result, ok, ◌>>=◌, arith, All, length, take, drop, drop-drop, length-take,
  leb, ltb, le→leb, ◌==◌, if◌then◌else◌, u32, ◌^◌, ◌||◌, Bool-cases, inl, inr, ◌⊎◌,
}
use rtp_benchmarks.V3c.Types.{load_bytes}
use rtp_benchmarks.Util.Files.{concat}
use rtp_benchmarks.Live555.Framed.{
  Piece, FramedSource, max_write_size, split_into_nals, next_chunk, next_nal, size_of_int,
  send_part, after_part, send_nal_part, send_frame,
}

-- A number of calls: what is given to live555, and the members.
abbrev pub send_frames : ℕ → List ℕ → FramedSource → Result (List (List ℕ) × FramedSource)
send_frames zero mem s = ok ([], s)
send_frames (suc n) mem s =
    send_frame mem s
    >>= (λ (part, t). send_frames n mem t >>= (λ (parts, last). ok (part ∷ parts, last)))

-- The bytes of a NAL unit in the file.
abbrev pub nal_bytes : List ℕ → Piece → List ℕ
nal_bytes mem (size, ptr) = take size (drop ptr mem)

-- A started source in the middle of a chunk, and of a NAL unit of it: it is sent from the beginning, or
-- has at least the size of a part.
abbrev pub IsSending : List ℕ → Piece → FramedSource → Type 0
IsSending mem nal s =
    (1 ≤ s.len)
    × ((chunk : Piece) × (s.c_chunk ≡ some chunk))
    × (s.c_nal ≡ some nal)
    × (nal.1 + nal.0 ≤ length mem)
    × (s.c_nal_off < nal.0)
    × ((s.c_nal_off ≡ 0) ⊎ (max_write_size ≤ nal.0))

-- The members when a NAL unit has been sent, whose last part began at `off`.
abbrev pub sent : ℕ → FramedSource → FramedSource
sent off s =
    if length s.nals == 0
    then record s { c_nal_off = off; c_chunk = none; n_calls = s.n_calls + 1 }
    else record s { c_nal_off = off; c_nal = none }

sent-chunks : (off : ℕ) (s : FramedSource) → (sent off s).chunks ≡ s.chunks
sent-chunks off s = elim (Bool-cases (length s.nals == 0)) [ inl e ↦ rw e refl | inr e ↦ rw e refl ]

sent-nals : (off : ℕ) (s : FramedSource) → (sent off s).nals ≡ s.nals
sent-nals off s = elim (Bool-cases (length s.nals == 0)) [ inl e ↦ rw e refl | inr e ↦ rw e refl ]

load_part :
    (mem : List ℕ) (p n : ℕ) → p + n ≤ length mem → load_bytes mem p n ≡ ok (take n (drop p mem))
load_part mem p n h = rw (le→leb (p + n) (length mem) h) refl

begin :
    (mem : List ℕ) (nal : Piece) (s : FramedSource)
    → IsSending mem nal s
    → send_frame mem s ≡ send_nal_part mem nal s
unfolding send_frame next_chunk next_nal
begin mem nal s (started, (chunk, c), n, h, k, m) =
    let f : (s.len == 0) ≡ false = ground arith in rw (f, c, n) refl

-- A part that is not the last.
send_frame-part :
    (mem : List ℕ) (nal : Piece) (s : FramedSource)
    → IsSending mem nal s
    → max_write_size < nal.0 - s.c_nal_off
    → nal.0 < 2 ^ 31
    → send_frame mem s
      ≡ ok (
        take max_write_size (drop (nal.1 + s.c_nal_off) mem),
        record s { c_nal_off = s.c_nal_off + max_write_size },
      )
unfolding send_nal_part send_part after_part
send_frame-part mem nal s is more int =
    let (started, c, n, h, k, m) = is in
    let e1 : ltb nal.0 max_write_size ≡ false = ground arith in
    let left : u32 (nal.0 + 2 ^ 64 - s.c_nal_off) ≡ nal.0 - s.c_nal_off = omega arith in
    let e2 : (ltb (nal.0 - s.c_nal_off) max_write_size || leb (2 ^ 31) (nal.0 - s.c_nal_off))
        ≡ false =
      ground arith in
    let e3 : leb nal.0 (s.c_nal_off + max_write_size) ≡ false = ground arith in
    begin mem nal s is
    ∙ rw (left, e1, e2, load_part mem (nal.1 + s.c_nal_off) max_write_size (omega arith), e3) refl

size_of_int_lem : (left : ℕ) → left < 2 ^ 31 → size_of_int left ≡ left
unfolding size_of_int
size_of_int_lem left h = ground arith

send_part-last :
    (size off : ℕ)
    → off < size
    → size - off ≤ max_write_size
    → (off ≡ 0) ⊎ (max_write_size ≤ size)
    → send_part size off ≡ (size - off, off)
unfolding send_part
send_part-last size off h k m = elim (Bool-cases (ltb size max_write_size)) [
  | inl e ↦
      let z : off ≡ 0 = elim m [ inl o ↦ o | inr o ↦ absurd (ground arith) ] in
      let w : size - 0 ≡ size = omega arith in rw (e, z, w) refl
  | inr e ↦
      let left : u32 (size + 2 ^ 64 - off) ≡ size - off = omega arith in
      let int : leb (2 ^ 31) (size - off) ≡ false = ground arith in
      let same : size_of_int (size - off) ≡ size - off =
        size_of_int_lem (size - off) (omega arith) in
      elim (Bool-cases (ltb (size - off) max_write_size)) [
        | inl f ↦ rw (left, e, f, same) refl
        | inr f ↦
            let all : size - off ≡ max_write_size = ground arith in rw (left, e, f, int, all) refl
      ]
]

-- The last part.
send_frame-last :
    (mem : List ℕ) (nal : Piece) (s : FramedSource)
    → IsSending mem nal s
    → nal.0 - s.c_nal_off ≤ max_write_size
    → send_frame mem s
      ≡ ok (take (nal.0 - s.c_nal_off) (drop (nal.1 + s.c_nal_off) mem), sent s.c_nal_off s)
unfolding send_nal_part after_part
send_frame-last mem nal s is few =
    let (started, c, n, h, k, m) = is in
    let part = send_part-last nal.0 s.c_nal_off k few m in
    let e3 : leb nal.0 (s.c_nal_off + (nal.0 - s.c_nal_off)) ≡ true = ground arith in
    begin mem nal s is
    ∙ rw (part, load_part mem (nal.1 + s.c_nal_off) (nal.0 - s.c_nal_off) (omega arith), e3) refl

-- A call that starts a chunk goes on as if the chunk had been started.
restart :
    (mem : List ℕ) (next : Piece) (more pieces : List Piece) (s : FramedSource)
    → 1 ≤ s.len
    → s.c_chunk ≡ none
    → s.chunks ≡ next ∷ more
    → split_into_nals mem next ≡ ok pieces
    → send_frame mem s
      ≡ send_frame mem (record s { chunks = more; c_chunk = some next; nals = s.nals ++ pieces })
unfolding send_frame next_chunk
restart mem next more pieces s started c chunks splits =
    let f : (s.len == 0) ≡ false = ground arith in rw (f, c, chunks, splits) refl

-- When the last part of the last NAL unit of a chunk has been sent and another chunk follows that can
-- be split, the next call sends that part once more, and not the first one of the next chunk.
pub send_frame-repeats :
    (mem : List ℕ) (nal next : Piece) (more pieces : List Piece) (s : FramedSource)
    → IsSending mem nal s
    → nal.0 - s.c_nal_off ≤ max_write_size
    → s.nals ≡ []
    → s.chunks ≡ next ∷ more
    → split_into_nals mem next ≡ ok pieces
    → (part : List ℕ) × (t : FramedSource) × (u : FramedSource) × (send_frame mem s ≡ ok (part, t))
      × (send_frame mem t ≡ ok (part, u))
      × (part ≡ take (nal.0 - s.c_nal_off) (drop (nal.1 + s.c_nal_off) mem))
      × (u.chunks ≡ more)
      × (u.nals ≡ pieces)
send_frame-repeats mem nal next more pieces s (started, c, n, h, k, m) few last chunks splits =
    let t : FramedSource = record s { c_chunk = none; n_calls = s.n_calls + 1 } in
    let t' : FramedSource = record t {
      chunks = more;
      c_chunk = some next;
      nals = s.nals ++ pieces;
    } in
    let first : sent s.c_nal_off s ≡ t = rw last refl in
    let queue : s.nals ++ pieces ≡ pieces = rw last refl in
    let again =
      restart mem next more pieces t started refl chunks splits
      ∙ send_frame-last mem nal t' (started, (next, refl), n, h, k, m) few in
    (
      take (nal.0 - s.c_nal_off) (drop (nal.1 + s.c_nal_off) mem),
      t,
      sent s.c_nal_off t',
      send_frame-last mem nal s (started, c, n, h, k, m) few
          ∙ ap (λ x. ok (take (nal.0 - s.c_nal_off) (drop (nal.1 + s.c_nal_off) mem), x)) first,
      again,
      refl,
      sent-chunks s.c_nal_off t',
      sent-nals s.c_nal_off t' ∙ queue,
    )

-- Calls one after the other, with the part that each of them gives to live555.
pub data Sends (mem : List ℕ) : FramedSource → List (List ℕ) → FramedSource → Type 0 where
  done : {s : FramedSource} → Sends mem s [] s
  call :
      {s t u : FramedSource} {part : List ℕ} {parts : List (List ℕ)}
      → send_frame mem s ≡ ok (part, t)
      → Sends mem t parts u
      → Sends mem s (part ∷ parts) u

pub Sends-send_frames :
    (mem : List ℕ) (s u : FramedSource) (parts : List (List ℕ))
    → Sends mem s parts u
    → send_frames (length parts) mem s ≡ ok (parts, u)
Sends-send_frames mem s u parts done = refl
Sends-send_frames mem s u parts (call e rest) = rw (e, Sends-send_frames mem _ u _ rest) refl

pub Sends-append :
    (mem : List ℕ) (s t u : FramedSource) (xs ys : List (List ℕ))
    → Sends mem s xs t
    → Sends mem t ys u
    → Sends mem s (xs ++ ys) u
Sends-append mem s t u xs ys done more = more
Sends-append mem s t u xs ys (call e rest) more = call e (Sends-append mem _ t u _ ys rest more)

-- The parts of the rest of a NAL unit, and the members behind the last of them.
abbrev pub IsSent : List ℕ → Piece → FramedSource → ℕ → Type 0
IsSent mem nal s n =
    (parts : List (List ℕ)) × (off : ℕ) × Sends mem s parts (sent off s)
    × (length parts ≡ n)
    × (concat parts ≡ take (nal.0 - s.c_nal_off) (drop (nal.1 + s.c_nal_off) mem))
    × All (λ p. length p ≤ max_write_size) parts

take-take-drop : (n k m : ℕ) (xs : List ℕ) → m ≡ n + k → take n xs ++ take k (drop n xs) ≡ take m xs
take-take-drop zero k m xs e = ap (λ j. take j xs) (omega arith)
take-take-drop (suc n) k zero xs e = absurd (omega arith)
take-take-drop (suc n) k (suc m) [] e = take_nil k
  where
    take_nil : (j : ℕ) → take {A = ℕ} j [] ≡ []
    take_nil zero = refl
    take_nil (suc j) = refl
take-take-drop (suc n) k (suc m) (x ∷ xs) e =
    ap (λ l. x ∷ l) (take-take-drop n k m xs (omega arith))

pub Sends-IsSent :
    (n : ℕ) (mem : List ℕ) (nal : Piece) (s : FramedSource)
    → IsSending mem nal s
    → nal.0 - s.c_nal_off ≤ suc n * max_write_size
    → n * max_write_size < nal.0 - s.c_nal_off
    → nal.0 < 2 ^ 31
    → IsSent mem nal s (suc n)
Sends-IsSent zero mem nal s is few many int =
    let left = nal.0 - s.c_nal_off in
    let rest = drop (nal.1 + s.c_nal_off) mem in
    (
      take left rest ∷ [],
      s.c_nal_off,
      call (send_frame-last mem nal s is (omega arith)) done,
      refl,
      append-nil (take left rest),
      (omega (arith, length-take left rest), record {}),
    )
Sends-IsSent (suc n) mem nal s (started, c, nal_is, h, k, m) few many int =
    let off = s.c_nal_off in
    let left = nal.0 - off in
    let rest = drop (nal.1 + off) mem in
    let s' : FramedSource = record s { c_nal_off = off + max_write_size } in
    let step = send_frame-part mem nal s (started, c, nal_is, h, k, m) (omega arith) int in
    let (parts, last, runs, count, bytes, small) =
      Sends-IsSent n mem nal s' (started, c, nal_is, h, omega arith, inr (omega arith))
        (omega arith) (omega arith) int in
    let behind : drop (nal.1 + (off + max_write_size)) mem ≡ drop max_write_size rest =
      sym (
        drop-drop (nal.1 + off) max_write_size (nal.1 + (off + max_write_size)) mem
          (omega arith)) in
    (
      take max_write_size rest ∷ parts,
      last,
      call step runs,
      omega arith,
      ap (λ l. take max_write_size rest ++ l)
            (bytes ∙ ap (take (nal.0 - (off + max_write_size))) behind)
          ∙ take-take-drop max_write_size (nal.0 - (off + max_write_size)) left rest (omega arith),
      (omega (arith, length-take max_write_size rest), small),
    )
