-- ===== src/V3c/Write/Units.antt =====
-- The bytes of one V3C unit, and that `create_v3c_unit` writes them.
use rtp_benchmarks.Common.{
  ◌==◌, ◌||◌, ℕ, zero, suc, ◌+◌, ◌*◌, ◌-◌, ◌^◌, ◌≤◌, ◌<◌, ◌≡◌, ap, List, [], ◌∷◌, ◌++◌, Option,
  some, none, Result, ok, ◌>>=◌, >>=_assoc, arith, All, length, length-append, length-replicate,
  take_all, le→leb, replicate, u8, u32, ◌<<<◌, if◌then◌else◌, Bool-cases, inl, inr,
}
use rtp_benchmarks.V3c.Types.{NalInfo, V3cUnitInfo, load_bytes}
use rtp_benchmarks.V3c.Bytes.RoundTrip.{big_endian, convert-big_endian, length-big_endian}
use rtp_benchmarks.V3c.Header.RoundTrip.{
  IsStored, header_bytes, v3c_header-header_bytes, length-header_bytes,
}
use rtp_benchmarks.V3c.Write.{
  Out, put, put_size, put_block, put_precision, put_nals, v3c_size_int, create_v3c_unit, release,
}
use rtp_benchmarks.V3c.Write.Cursor.{Writes, after, put-Writes, nothing-Writes, seq-Writes}

-- The bytes that a NAL unit's pointer leads to.
abbrev pub block_of : NalInfo → List ℕ
block_of p = elim p.buf [ none ↦ [] | some block ↦ block ]

-- The NAL unit is there, with its size.
abbrev pub IsHeld : NalInfo → Type 0
IsHeld p = (p.buf ≡ some (block_of p)) × (length (block_of p) ≡ p.size) × (p.size < 2 ^ 32)

abbrev pub total_size : List NalInfo → ℕ
total_size [] = 0
total_size (p ∷ ps) = p.size + total_size ps

pub total_size-append :
    (ps qs : List NalInfo) → total_size (ps ++ qs) ≡ total_size ps + total_size qs
total_size-append [] qs = omega arith
total_size-append (p ∷ ps) qs = omega (arith, total_size-append ps qs)

-- A NAL sample stream: each unit behind its size.
unfoldable pub nals_bytes : ℕ → List NalInfo → List ℕ
nals_bytes n [] = []
nals_bytes n (p ∷ ps) = big_endian n p.size ++ (block_of p ++ nals_bytes n ps)

unfoldable pub precision_bytes : ℕ → ℕ → List ℕ
precision_bytes t n = if t == 1 || t == 6 then ((n - 1) * 32) ∷ [] else []

-- A unit behind its size field, and with it.
unfoldable pub unit_body : ℕ → V3cUnitInfo → List ℕ
unit_body n u =
    header_bytes u.header.vuh
    ++ (precision_bytes u.header.vuh_unit_type n ++ nals_bytes n u.nal_infos)

unfoldable pub unit_bytes : ℕ → V3cUnitInfo → List ℕ
unit_bytes n u = big_endian 3 (length (unit_body n u)) ++ unit_body n u

-- A unit whose NAL units have all been received, and whose size fits its size field.
pub record IsComplete (n : ℕ) (u : V3cUnitInfo) : Type 0 where
  pub stored : IsStored u.header.vuh_unit_type u.header.vuh
  pub held : All IsHeld u.nal_infos
  pub counted : u.ptr ≡ total_size u.nal_infos
  pub fits : length (unit_body n u) < 2 ^ 24

pub put_size-Writes : (x n : ℕ) → n ≤ 4 → Writes (put_size x n) (big_endian n x)
unfolding put_size
put_size-Writes x n h =
    rw (convert-big_endian n x (replicate n 0) h (length-replicate n 0))
      (put-Writes (big_endian n x))

load_bytes_all :
    (bytes : List ℕ) (size : ℕ) → length bytes ≡ size → load_bytes bytes 0 size ≡ ok bytes
load_bytes_all bytes size l =
    rw (le→leb (0 + size) (length bytes) (omega arith), take_all size bytes (omega arith))

pub put_block-Writes :
    (block : Option (List ℕ)) (bytes : List ℕ) (size : ℕ)
    → block ≡ some bytes
    → length bytes ≡ size
    → Writes (put_block block size) bytes
unfolding put_block
put_block-Writes block bytes size e l = rw (e, load_bytes_all bytes size l) (put-Writes bytes)

put_nals-Writes :
    (ps : List NalInfo) (n : ℕ) → n ≤ 4 → All IsHeld ps → Writes (put_nals ps n) (nals_bytes n ps)
unfolding put_nals nals_bytes
put_nals-Writes [] n h a = nothing-Writes
put_nals-Writes (p ∷ ps) n h ((e, l, small), a) =
    let same : u32 p.size ≡ p.size = omega arith in
    rw same (
      seq-Writes (put_size p.size n) (λ o. put_block p.buf p.size o >>= put_nals ps n)
        (big_endian n p.size) (block_of p ++ nals_bytes n ps) (put_size-Writes p.size n h)
        (seq-Writes (put_block p.buf p.size) (put_nals ps n) (block_of p) (nals_bytes n ps)
          (put_block-Writes p.buf (block_of p) p.size e l) (put_nals-Writes ps n h a)))

pub length-nals_bytes :
    (n : ℕ) (ps : List NalInfo)
    → All IsHeld ps
    → length (nals_bytes n ps) ≡ total_size ps + length ps * n
unfolding nals_bytes
length-nals_bytes n [] a = omega arith
length-nals_bytes n (p ∷ ps) ((e, l, small), a) = omega (
  arith,
  length-append {0} (big_endian n p.size) (block_of p ++ nals_bytes n ps),
  length-append {0} (block_of p) (nals_bytes n ps),
  length-big_endian n p.size,
  length-nals_bytes n ps a,
)

pub length-precision_bytes :
    (t n : ℕ) → length (precision_bytes t n) ≡ (if t == 1 || t == 6 then 1 else 0)
unfolding precision_bytes
length-precision_bytes t n = ground arith

pub length-unit_body :
    (n : ℕ) (u : V3cUnitInfo)
    → IsComplete n u
    → length (unit_body n u)
      ≡ 4
        + (if u.header.vuh_unit_type == 1 || u.header.vuh_unit_type == 6 then 1 else 0)
        + u.ptr
        + length u.nal_infos * n
unfolding unit_body
length-unit_body n u c = omega (
  arith,
  length-append {0} (header_bytes u.header.vuh)
      (precision_bytes u.header.vuh_unit_type n ++ nals_bytes n u.nal_infos),
  length-append {0} (precision_bytes u.header.vuh_unit_type n) (nals_bytes n u.nal_infos),
  length-header_bytes u.header.vuh,
  length-precision_bytes u.header.vuh_unit_type n,
  length-nals_bytes n u.nal_infos c.held,
)

-- No `% 2 ^ 32` bites on a size below 2 ^ 24.
no_wrap : (k p n : ℕ) → 1 ≤ n → n ≤ 4 → p + k * n < 2 ^ 24 → u32 p + u32 k * n ≡ p + k * n
no_wrap k p zero lo hi h = absurd (omega arith)
no_wrap k p (suc zero) lo hi h = omega arith
no_wrap k p (suc (suc zero)) lo hi h = omega arith
no_wrap k p (suc (suc (suc zero))) lo hi h = omega arith
no_wrap k p (suc (suc (suc (suc zero)))) lo hi h = omega arith
no_wrap k p (suc (suc (suc (suc (suc n))))) lo hi h = absurd (omega arith)

-- The size that the program computes is the length of what follows the size field.
v3c_size_int-length :
    (n : ℕ) (u : V3cUnitInfo)
    → 1 ≤ n
    → n ≤ 4
    → IsComplete n u
    → v3c_size_int u n ≡ length (unit_body n u)
unfolding v3c_size_int
v3c_size_int-length n u lo hi c =
    ground (arith, length-unit_body n u c, no_wrap (length u.nal_infos) u.ptr n lo hi)

put_precision-Writes : (t n : ℕ) → 1 ≤ n → n ≤ 4 → Writes (put_precision t n) (precision_bytes t n)
unfolding put_precision precision_bytes
put_precision-Writes t n lo hi = elim (Bool-cases (t == 1 || t == 6)) [
  | inl e ↦ rw (e, byte) (put-Writes (((n - 1) * 32) ∷ []))
  | inr e ↦ rw e nothing-Writes
]
  where
    byte : u8 (u32 (n + 2 ^ 32 - 1) <<< 5) ≡ (n - 1) * 32
    byte = omega arith

-- The unit's own two steps after the size field, in the order of the program.
body-Writes :
    (n : ℕ) (u : V3cUnitInfo)
    → 1 ≤ n
    → n ≤ 4
    → IsComplete n u
    → Writes
        (λ o.
          put (header_bytes u.header.vuh) o
          >>= (λ headed. put_precision u.header.vuh_unit_type n headed >>= put_nals u.nal_infos n))
        (unit_body n u)
unfolding unit_body
body-Writes n u lo hi c =
    seq-Writes (put (header_bytes u.header.vuh))
      (λ o. put_precision u.header.vuh_unit_type n o >>= put_nals u.nal_infos n) _ _
      (put-Writes (header_bytes u.header.vuh))
      (seq-Writes (put_precision u.header.vuh_unit_type n) (put_nals u.nal_infos n) _ _
        (put_precision-Writes u.header.vuh_unit_type n lo hi)
        (put_nals-Writes u.nal_infos n hi c.held))

-- `create_v3c_unit`, with the three bytes that the program gives a unit's size, writes the bytes of
-- a complete unit at the cursor and nothing else, moves the cursor behind them, and leaves the
-- unit without its blocks.
pub create_v3c_unit_lem :
    (n : ℕ) (u : V3cUnitInfo) (pre rest : List ℕ)
    → 1 ≤ n
    → n ≤ 4
    → IsComplete n u
    → length (unit_bytes n u) ≤ length rest
    → length pre + length (unit_bytes n u) < 2 ^ 64
    → create_v3c_unit u 3 n (pre ++ rest, length pre)
      ≡ ok (release u, after pre (unit_bytes n u) rest)
unfolding create_v3c_unit unit_bytes
create_v3c_unit_lem n u pre rest lo hi c h k =
    let size = length (unit_body n u) in
    let whole =
      seq-Writes (put_size size 3)
        (λ o.
          put (header_bytes u.header.vuh) o
          >>= (λ headed. put_precision u.header.vuh_unit_type n headed >>= put_nals u.nal_infos n))
        (big_endian 3 size) (unit_body n u) (put_size-Writes size 3 (omega arith))
        (body-Writes n u lo hi c) pre rest h k in
    let finish : (Out → Result (V3cUnitInfo × Out)) = λ filled. ok (release u, filled) in
    rw
      (
        v3c_size_int-length n u lo hi c,
        v3c_header-header_bytes u.header.vuh_unit_type u.header.vuh c.stored,
      )
      (simp (>>=_assoc) at (ap (λ r. r >>= finish) whole))
