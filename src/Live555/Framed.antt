-- ===== src/Live555/Framed.antt =====
-- `FramedSourceCustom` of util/live555_util.cc: a source that cuts a file of chunks, each behind its
-- size in eight bytes, into NAL units and gives live555 pieces of them. A pointer is an offset in the
-- file. The clock and its statistics are left out, and so is live555, which is called back.
pub mod Chunked
pub mod Parts
pub mod Chunks
use rtp_benchmarks.Common.{
  ℕ, zero, suc, ◌+◌, ◌-◌, ◌*◌, ◌^◌, ◌≡◌, Bool, true, false, ◌&&◌, ◌||◌, List, [], ◌∷◌, ◌++◌, Option,
  none, some, Result, ok, err, Fault, ◌>>=◌, ltb, leb, ◌==◌, if◌then◌else◌, drop, length, u32, u64,
  add64, take,
}
use rtp_benchmarks.V3c.Types.{load_bytes}
use rtp_benchmarks.Util.Chunks.{from_bytes}
use rtp_benchmarks.Util.FrameStart.{get_next_frame_start, not_found}

abbrev pub max_write_size : ℕ
max_write_size = 1444

-- A size and a pointer, as in the two queues.
abbrev pub Piece : Type 0
Piece = ℕ × ℕ

-- The members of the class. `len_` and `off_` are zero until the source is started. `c_nal_`, which
-- nothing initialises, is taken to start as null.
pub record FramedSource : Type 0 where
  pub len : ℕ
  pub off : ℕ
  pub chunks : List Piece
  pub total_size : ℕ
  pub c_chunk : Option Piece
  pub nals : List Piece
  pub c_nal : Option Piece
  pub c_nal_off : ℕ
  pub n_calls : ℕ

-- The loop of `startFramedSource`, with the rounds that are left of the 3000, at the offset `i`: the
-- queue and the sum of the sizes.
pub chunk_loop : List ℕ → ℕ → ℕ → ℕ → Result (List Piece × ℕ)
chunk_loop mem len zero i = ok ([], 0)
chunk_loop mem len (suc n) i =
    if ltb i len
    then (load_bytes mem i 8 >>= (λ bytes.
        let chunk_size = from_bytes bytes in
        chunk_loop mem len n (u64 (i + 8 + chunk_size))
        >>= (λ (rest, total). ok ((chunk_size, i + 8) ∷ rest, add64 chunk_size total))))
    else ok ([], 0)

pub start_framed_source : List ℕ → ℕ → Result FramedSource
start_framed_source mem len = do
  (chunks, total) ← chunk_loop mem len 3000 0
  ok (record {
    len = u32 len;
    off = 0;
    chunks = chunks;
    total_size = total;
    c_chunk = none;
    nals = [];
    c_nal = none;
    c_nal_off = 0;
    n_calls = 0;
  })

-- The `if` of the loop: a NAL unit between two start codes. `offset > 4` is on an `int`, and the size
-- is an `int` that becomes a `size_t`.
unfoldable pub cut_piece : ℕ → ℕ → ℕ → ℕ → List Piece × ℕ
cut_piece chunk offset prev_offset start_len =
    if ltb 4 offset && ltb offset (2 ^ 31)
    then ((u64 (offset + 2 ^ 64 - prev_offset - start_len), chunk + prev_offset) ∷ [], offset)
    else ([], prev_offset)

-- The `while` loop, on the chunk at the offset `chunk`.
unfoldable pub split_loop : List ℕ → ℕ → ℕ → ℕ → ℕ → ℕ → ℕ → Result (List Piece × ℕ)
split_loop mem chunk len zero offset prev_offset start_len = err Fault.out_of_fuel
split_loop mem chunk len (suc fuel) offset prev_offset start_len =
    if offset == not_found
    then ok ([], prev_offset)
    else (get_next_frame_start (drop chunk mem) offset (u32 len) start_len >>= (λ (next, start').
        let (piece, prev') = cut_piece chunk next prev_offset start' in
        split_loop mem chunk len fuel next prev' start'
        >>= (λ (rest, last). ok (piece ++ rest, last))))

unfoldable pub split_into_nals : List ℕ → Piece → Result (List Piece)
split_into_nals mem (len, chunk) = do
  (offset, start_len) ← get_next_frame_start (drop chunk mem) 0 (u32 len) 0
  (pieces, prev_offset) ← split_loop mem chunk len (suc len) offset offset start_len
  let prev = if prev_offset == not_found then 0 else prev_offset in
      ok (pieces ++ (u64 (len + 2 ^ 64 - prev), chunk + prev) ∷ [])

-- The next chunk, when the last has been sent.
unfoldable pub next_chunk : List ℕ → Option Piece → FramedSource → Result FramedSource
next_chunk mem (some chunk) s = ok s
next_chunk mem none s = take_chunk s.chunks
  where
    -- `printStats` stops the program, but `front` of the empty queue is then read.
    take_chunk : List Piece → Result FramedSource
    take_chunk [] = err Fault.bad_access
    take_chunk (chunk ∷ chunks) = do
      pieces ← split_into_nals mem chunk
      ok (record s { chunks = chunks; c_chunk = some chunk; nals = s.nals ++ pieces })

-- The next NAL unit, when the last has been sent and is no longer pointed to.
unfoldable pub next_nal : Option Piece → FramedSource → Result (Piece × FramedSource)
next_nal (some nal) s = ok (nal, s)
next_nal none s = take_nal s.nals
  where
    take_nal : List Piece → Result (Piece × FramedSource)
    take_nal [] = err Fault.bad_access
    take_nal (nal ∷ nals) = ok (nal, record s { nals = nals; c_nal = some nal; c_nal_off = 0 })

-- The `int` with these 32 bits as a `size_t`.
unfoldable pub size_of_int : ℕ → ℕ
size_of_int left = if ltb left (2 ^ 31) then left else left + 2 ^ 64 - 2 ^ 32

-- `send_len` and `send_off`; `left` is an `int`, which is negative from 2 ^ 31 on.
unfoldable pub send_part : ℕ → ℕ → ℕ × ℕ
send_part nal_len nal_off =
    let left = u32 (nal_len + 2 ^ 64 - nal_off) in
    if ltb nal_len max_write_size
    then (nal_len, 0)
    else if ltb left max_write_size || leb (2 ^ 31) left
    then (size_of_int left, nal_off)
    else (max_write_size, nal_off)

-- The part behind the `memcpy`.
unfoldable pub after_part : ℕ → ℕ → FramedSource → FramedSource
after_part nal_len send_len s =
    if leb nal_len (s.c_nal_off + send_len)
    then (if length s.nals == 0
        then record s { c_chunk = none; n_calls = s.n_calls + 1 }
        else record s { c_nal = none })
    else record s { c_nal_off = s.c_nal_off + send_len }

unfoldable pub send_nal_part : List ℕ → Piece → FramedSource → Result (List ℕ × FramedSource)
send_nal_part mem (nal_len, nal) s =
    let (send_len, send_off) = send_part nal_len s.c_nal_off in
    load_bytes mem (nal + send_off) send_len
    >>= (λ bytes. ok (bytes, after_part nal_len send_len s))

-- What is given to live555, a frame without bytes before the start, and the members.
unfoldable pub send_frame : List ℕ → FramedSource → Result (List ℕ × FramedSource)
send_frame mem s =
    if (s.len == 0) && (s.off == 0)
    then ok ([], s)
    else (next_chunk mem s.c_chunk s
        >>= (λ t. next_nal t.c_nal t >>= (λ (nal, u). send_nal_part mem nal u)))
