-- ===== src/V3c/Mmap/Parses.antt =====
-- `mmap_v3c_file` on a well formed sample stream: it finds every unit and every NAL unit in it.
use rtp_benchmarks.Common.{
  none, ◌==◌, ◌||◌, ℕ, zero, suc, ◌+◌, ◌^◌, ◌≤◌, ◌<◌, ◌≡◌, sym, ap, ◌∙◌, true, List, [], ◌∷◌, ◌++◌,
  append-nil, append_assoc, ok, arith, length, length-append, get_elem?-drop, drop, drop-drop,
  drop-append_left, All, ◌⊎◌, inl, inr, add64, if◌then◌else◌, le→leb, lt→leb_false,
}
use rtp_benchmarks.V3c.Types.{is_atlas, NalInfo, V3cUnitInfo}
use rtp_benchmarks.V3c.Bytes.RoundTrip.{big_endian, length-big_endian}
use rtp_benchmarks.V3c.Mmap.{done, nal_loop, nal_start, nal_at}
use rtp_benchmarks.V3c.Mmap.Reads.{read_nal_size-big_endian}
use rtp_benchmarks.V3c.Write.Units.{IsHeld, IsComplete, block_of, nals_bytes, precision_bytes}

-- Behind a part of the file stands what follows it.
pub drop_past :
    (p k : ℕ) (cbuf front back : List ℕ)
    → k ≡ p + length front
    → drop p cbuf ≡ front ++ back
    → drop k cbuf ≡ back
drop_past p k cbuf front back e h =
    sym (drop-drop p (length front) k cbuf e)
    ∙ ap (drop (length front)) h
    ∙ drop-append_left front back

-- Where the NAL units of a stream that starts at `p` stand.
unfoldable pub located : ℕ → ℕ → List NalInfo → List NalInfo
located n p [] = []
located n p (i ∷ is) =
    record { location = p + n; size = i.size; buf = none } ∷ located n (p + n + i.size) is

-- The NAL sizes fit the width of their fields.
abbrev pub FitsWidth : ℕ → NalInfo → Type 0
FitsWidth n i = i.size < 256 ^ n

module _ (cbuf : List ℕ) (n stop : ℕ) (lo : 2 ≤ n) (hi : n ≤ 4) where
  pub nal_loop-located :
      (ps : List NalInfo) (fuel p : ℕ) (infos : List NalInfo) (rest : List ℕ)
      → All IsHeld ps
      → All (FitsWidth n) ps
      → length ps < fuel
      → stop ≡ p + length (nals_bytes n ps)
      → stop + 4 < 2 ^ 64
      → drop p cbuf ≡ nals_bytes n ps ++ rest
      → nal_loop fuel cbuf n stop p infos ≡ ok (done (infos ++ located n p ps))
  unfolding nal_loop nals_bytes located
  nal_loop-located ps zero p infos rest a f hf e b d = absurd (omega arith)
  nal_loop-located [] (suc fuel) p infos rest a f hf e b d =
      rw (le→leb stop p (omega arith), append-nil)
  nal_loop-located (i ∷ is) (suc fuel) p infos rest ((e1, l, small), a) (w, f) hf e b d =
      let total = length-append {0} (big_endian n i.size) (block_of i ++ nals_bytes n is) in
      let total' = length-append {0} (block_of i) (nals_bytes n is) in
      let width = length-big_endian n i.size in
      let one = length-append {0} (big_endian n i.size) (block_of i) in
      let at_block : add64 p n ≡ p + n = omega arith in
      let at_next : add64 (p + n) i.size ≡ p + n + i.size = omega arith in
      let field : drop p cbuf ≡ big_endian n i.size ++ (block_of i ++ (nals_bytes n is ++ rest)) =
        d ∙ simp append_assoc in
      let next : drop (p + n + i.size) cbuf ≡ nals_bytes n is ++ rest =
        drop_past p (p + n + i.size) cbuf (big_endian n i.size ++ block_of i)
          (nals_bytes n is ++ rest) (omega arith) (field ∙ simp append_assoc) in
      rw
        (
          lt→leb_false stop p (omega arith),
          read_nal_size-big_endian cbuf n p i.size (block_of i ++ (nals_bytes n is ++ rest)) lo hi w
              (omega arith) field,
          at_block,
          at_next,
        )
        (nal_loop-located is fuel (p + n + i.size) (infos ++ (nal_at (p + n) i.size ∷ [])) rest a f
            (omega arith) (omega arith) b next
          ∙ rw append_assoc)

pub length-nals_le : (n : ℕ) (ps : List NalInfo) → 2 ≤ n → length ps ≤ length (nals_bytes n ps)
unfolding nals_bytes
length-nals_le n [] h = omega arith
length-nals_le n (i ∷ is) h = omega (
  arith,
  length-append {0} (big_endian n i.size) (block_of i ++ nals_bytes n is),
  length-append {0} (block_of i) (nals_bytes n is),
  length-big_endian n i.size,
  length-nals_le n is h,
)

-- A video unit has NAL sizes of four bytes; an atlas unit says how wide its are.
abbrev pub IsPrecision : ℕ → ℕ → Type 0
IsPrecision t n = (2 ≤ n) × (n ≤ 4) × (((t == 1 || t == 6) ≡ true) ⊎ (n ≡ 4))

-- Where the NAL units of a unit start, from behind its size field.
abbrev pub nals_at : ℕ → ℕ → ℕ
nals_at t ptr = ptr + 4 + (if t == 1 || t == 6 then 1 else 0)

-- A unit that can be parsed: complete, and with NAL sizes that fit their fields.
pub record IsSample (n : ℕ) (u : V3cUnitInfo) : Type 0 where
  pub complete : IsComplete n u
  pub precision : IsPrecision u.header.vuh_unit_type n
  pub widths : All (FitsWidth n) u.nal_infos

pub nal_start-lem :
    (cbuf : List ℕ) (t n ptr : ℕ) (rest : List ℕ)
    → IsPrecision t n
    → ptr + 5 < 2 ^ 64
    → drop (ptr + 4) cbuf ≡ precision_bytes t n ++ rest
    → nal_start cbuf t ptr ≡ ok (nals_at t ptr, n)
unfolding nal_start precision_bytes is_atlas
nal_start-lem cbuf t n ptr rest (lo, hi, inl k) h d =
    ground (arith, get_elem?-drop (ptr + 4) 0 (add64 ptr 4) cbuf (omega arith))
nal_start-lem cbuf t n ptr rest (lo, hi, inr k) h d =
    ground (arith, get_elem?-drop (ptr + 4) 0 (add64 ptr 4) cbuf (omega arith))
