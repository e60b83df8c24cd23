-- ===== src/Live555/Framed/Chunked.antt =====
-- The chunks that `startFramedSource` of util/live555_util.cc finds.
use rtp_benchmarks.Common.{
  ℕ, zero, suc, ◌+◌, ◌^◌, ◌≤◌, ◌<◌, ◌≡◌, refl, ap, ◌∙◌, true, false, List, [], ◌∷◌, ◌++◌,
  append_assoc, append-nil, map, none, ok, arith, length, length-append, ltb, take, drop,
  take-append_left, drop-append_left, u32, u64, add64,
}
use rtp_benchmarks.V3c.Types.{load_bytes}
use rtp_benchmarks.Util.Chunks.{from_bytes, to_bytes}
use rtp_benchmarks.Uvgrtp.Sender.Sends.{load_bytes-middle}
use rtp_benchmarks.Live555.Framed.{Piece, FramedSource, chunk_loop, start_framed_source}

-- A file of chunks, each behind its size.
abbrev pub chunk_file : List (List ℕ) → List ℕ
chunk_file [] = []
chunk_file (chunk ∷ chunks) = to_bytes 8 (length chunk) ++ (chunk ++ chunk_file chunks)

abbrev pub chunk_total : List (List ℕ) → ℕ
chunk_total [] = 0
chunk_total (chunk ∷ chunks) = length chunk + chunk_total chunks

-- The bytes that a queue entry stands for.
abbrev pub piece_bytes : List ℕ → Piece → List ℕ
piece_bytes mem (size, place) = take size (drop place mem)

size_bytes : (x : ℕ) → x < 2 ^ 64 → from_bytes (to_bytes 8 x) ≡ x
unfolding from_bytes to_bytes
size_bytes x h = omega arith

length-to_bytes : (x : ℕ) → length (to_bytes 8 x) ≡ 8
unfolding to_bytes
length-to_bytes x = refl

chunk_total_le : (chunks : List (List ℕ)) → chunk_total chunks ≤ length (chunk_file chunks)
chunk_total_le [] = omega arith
chunk_total_le (chunk ∷ chunks) = omega (
  arith,
  chunk_total_le chunks,
  length-append {0} (to_bytes 8 (length chunk)) (chunk ++ chunk_file chunks),
  length-append {0} chunk (chunk_file chunks),
)

piece_bytes-middle :
    (pre chunk rest mem : List ℕ) (place : ℕ)
    → mem ≡ pre ++ (chunk ++ rest)
    → place ≡ length pre
    → piece_bytes mem (length chunk, place) ≡ chunk
piece_bytes-middle pre chunk rest mem place em ep =
    rw (em, ep, drop-append_left pre (chunk ++ rest)) (take-append_left chunk rest)

chunk_loop_lem :
    (chunks : List (List ℕ)) (pre mem : List ℕ) (n i : ℕ)
    → mem ≡ pre ++ chunk_file chunks
    → i ≡ length pre
    → length mem < 2 ^ 64
    → length chunks ≤ n
    → (pieces : List Piece) × (chunk_loop mem (length mem) n i ≡ ok (pieces, chunk_total chunks))
      × (map (piece_bytes mem) pieces ≡ chunks)
unfolding chunk_loop from_bytes to_bytes
chunk_loop_lem [] pre mem zero i em ei small h = ([], refl, refl)
chunk_loop_lem (chunk ∷ chunks) pre mem zero i em ei small h = absurd (omega arith)
chunk_loop_lem [] pre mem (suc n) i em ei small h =
    let l = ap (length {A = ℕ}) (em ∙ append-nil pre) in
    let past : ltb i (length mem) ≡ false = ground arith in ([], rw past refl, refl)
chunk_loop_lem (chunk ∷ chunks) pre mem (suc n) i em ei small h =
    let size = to_bytes 8 (length chunk) in
    let m = ap (length {A = ℕ}) em in
    let l1 = length-append {0} pre (size ++ (chunk ++ chunk_file chunks)) in
    let l2 = length-append {0} size (chunk ++ chunk_file chunks) in
    let l3 = length-append {0} chunk (chunk_file chunks) in
    let l4 = length-append {0} pre size in
    let l5 = length-append {0} (pre ++ size) chunk in
    let eight = length-to_bytes (length chunk) in
    let here : load_bytes mem i (length size) ≡ ok size =
      rw (ei, em) (load_bytes-middle pre size (chunk ++ chunk_file chunks)) in
    let here8 : load_bytes mem i 8 ≡ ok size = rw eight at here in
    let value = size_bytes (length chunk) (omega arith) in
    let moved : mem ≡ ((pre ++ size) ++ chunk) ++ chunk_file chunks = em ∙ simp append_assoc in
    let next = u64 (i + 8 + length chunk) in
    let (pieces, runs, same) =
      chunk_loop_lem chunks ((pre ++ size) ++ chunk) mem n next moved (omega arith) small
        (omega arith) in
    let inside : ltb i (length mem) ≡ true = ground arith in
    let le = chunk_total_le chunks in
    let total : add64 (length chunk) (chunk_total chunks) ≡ length chunk + chunk_total chunks =
      omega arith in
    let front : mem ≡ (pre ++ size) ++ (chunk ++ chunk_file chunks) = em ∙ simp append_assoc in
    let place : i + 8 ≡ length (pre ++ size) = omega arith in
    let bytes : piece_bytes mem (length chunk, i + 8) ≡ chunk =
      piece_bytes-middle (pre ++ size) chunk (chunk_file chunks) mem (i + 8) front place in
    (
      (length chunk, i + 8) ∷ pieces,
      rw (inside, here8, value, runs, total) refl,
      rw (bytes, same) refl,
    )

-- From a file of at most 3000 chunks, each behind its size in eight bytes, the queue holds the size
-- and the place of each chunk, in order, and the total is the sum of their sizes; nothing is read out
-- of bounds.
pub start_framed_source-chunk_file :
    (chunks : List (List ℕ))
    → length chunks ≤ 3000
    → length (chunk_file chunks) < 2 ^ 64
    → (s : FramedSource) × (start_framed_source (chunk_file chunks) (length (chunk_file chunks))
        ≡ ok s)
      × (map (piece_bytes (chunk_file chunks)) s.chunks ≡ chunks)
      × (s.total_size ≡ chunk_total chunks)
unfolding start_framed_source
start_framed_source-chunk_file chunks h small =
    let (pieces, runs, same) =
      chunk_loop_lem chunks [] (chunk_file chunks) 3000 0 refl refl small h in
    (
      record {
        len = u32 (length (chunk_file chunks));
        off = 0;
        chunks = pieces;
        total_size = chunk_total chunks;
        c_chunk = none;
        nals = [];
        c_nal = none;
        c_nal_off = 0;
        n_calls = 0;
      },
      rw runs refl,
      same,
      refl,
    )
