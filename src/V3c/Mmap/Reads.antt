-- ===== src/V3c/Mmap/Reads.antt =====
-- What the reads of `mmap_v3c_file` find, and how far they reach.
use rtp_benchmarks.Common.{
  ℕ, zero, suc, ◌+◌, ◌^◌, ◌≤◌, ◌<◌, ◌≡◌, refl, sym, ap, ◌∙◌, List, [], ◌∷◌, ◌++◌, some, none, ok,
  arith, IsByte, All, length, add64, get_elem?, get_elem?-drop, drop, take, length-drop,
  length-take, le→leb, ◌⊎◌, inl, inr,
}
use rtp_benchmarks.V3c.Bytes.RoundTrip.{
  combine, big_endian, combine-big_endian, combine_2_value, combine_3_value, combine_4_value,
}
use rtp_benchmarks.V3c.Mmap.{
  Scan, done, invalid, on_done, read_nal_size, read_v3c_size, combine_v3c_size,
}

-- The byte at an index, and 0 past the end.
byte_at : List ℕ → ℕ → ℕ
byte_at [] i = 0
byte_at (x ∷ xs) zero = x
byte_at (x ∷ xs) (suc i) = byte_at xs i

byte_at-cases :
    (xs : List ℕ) (i : ℕ)
    → All IsByte xs
    → (get_elem? xs i ≡ none)
      ⊎ ((get_elem? xs i ≡ some (byte_at xs i)) × IsByte (byte_at xs i) × (i < length xs))
unfolding byte_at
byte_at-cases [] i h = inl refl
byte_at-cases (x ∷ xs) zero h = inr (refl, h.0, omega arith)
byte_at-cases (x ∷ xs) (suc i) h = ground (arith, byte_at-cases xs i h.1)

pub on_done-cases {ℓ κ ι} :
    {A : Type ℓ} {B : Type κ} (Q : B → Type ι) (s : Scan A) (b : B) (f : A → B)
    → Q b
    → ((a : A) → s ≡ done a → Q (f a))
    → Q (on_done b f s)
on_done-cases Q (done a) b f h k = k a refl
on_done-cases Q invalid b f h k = h

-- A read behind `p` is a read of what stands there.
pub get_elem?_at :
    (cbuf : List ℕ) (p i : ℕ) (l : List ℕ)
    → p + i < 2 ^ 64
    → drop p cbuf ≡ l
    → get_elem? cbuf (add64 p i) ≡ get_elem? l i
get_elem?_at cbuf p i l h e =
    sym (get_elem?-drop p i (add64 p i) cbuf (omega arith)) ∙ ap (λ k. get_elem? k i) e

pub read_nal_size-big_endian :
    (cbuf : List ℕ) (n p x : ℕ) (rest : List ℕ)
    → 2 ≤ n
    → n ≤ 4
    → x < 256 ^ n
    → p + 4 < 2 ^ 64
    → drop p cbuf ≡ big_endian n x ++ rest
    → read_nal_size cbuf n p ≡ ok (done x)
unfolding read_nal_size big_endian combine
read_nal_size-big_endian cbuf zero p x rest lo hi hx hp e = absurd (omega arith)
read_nal_size-big_endian cbuf (suc zero) p x rest lo hi hx hp e = absurd (omega arith)
read_nal_size-big_endian cbuf (suc (suc zero)) p x rest lo hi hx hp e = ground (
  arith,
  get_elem?_at cbuf p 0 _ (omega arith) e,
  get_elem?_at cbuf p 1 _ (omega arith) e,
  combine-big_endian 2 x,
)
read_nal_size-big_endian cbuf (suc (suc (suc zero))) p x rest lo hi hx hp e = ground (
  arith,
  get_elem?_at cbuf p 0 _ (omega arith) e,
  get_elem?_at cbuf p 1 _ (omega arith) e,
  get_elem?_at cbuf p 2 _ (omega arith) e,
  combine-big_endian 3 x,
)
read_nal_size-big_endian cbuf (suc (suc (suc (suc zero)))) p x rest lo hi hx hp e = ground (
  arith,
  get_elem?_at cbuf p 0 _ (omega arith) e,
  get_elem?_at cbuf p 1 _ (omega arith) e,
  get_elem?_at cbuf p 2 _ (omega arith) e,
  get_elem?_at cbuf p 3 _ (omega arith) e,
  combine-big_endian 4 x,
)
read_nal_size-big_endian cbuf (suc (suc (suc (suc (suc n))))) p x rest lo hi hx hp e =
    absurd (omega arith)

-- A NAL size that was read came from inside the file, in two to four bytes, and fits 32 bits.
pub read_nal_size_bounds :
    (cbuf : List ℕ) (n p : ℕ) {x : ℕ}
    → All IsByte cbuf
    → read_nal_size cbuf n p ≡ ok (done x)
    → (p < length cbuf) × (2 ≤ n) × (n ≤ 4) × (x < 2 ^ 32)
unfolding read_nal_size
read_nal_size_bounds cbuf n p h e =
    let a : ℕ = byte_at cbuf p in
    let b : ℕ = byte_at cbuf (add64 p 1) in
    let c : ℕ = byte_at cbuf (add64 p 2) in
    let d : ℕ = byte_at cbuf (add64 p 3) in
    ground (
      arith,
      byte_at-cases cbuf p h,
      byte_at-cases cbuf (add64 p 1) h,
      byte_at-cases cbuf (add64 p 2) h,
      byte_at-cases cbuf (add64 p 3) h,
      combine_2_value a b,
      combine_3_value a b c,
      combine_4_value a b c d,
    )

All-take : (n : ℕ) (xs : List ℕ) → All IsByte xs → All IsByte (take n xs)
All-take zero xs h = tt
All-take (suc n) [] h = tt
All-take (suc n) (x ∷ xs) h = (h.0, All-take n xs h.1)

All-drop : (n : ℕ) (xs : List ℕ) → All IsByte xs → All IsByte (drop n xs)
All-drop zero xs h = h
All-drop (suc n) [] h = tt
All-drop (suc n) (x ∷ xs) h = All-drop n xs h.1

combine_v3c_size_bounds :
    (bs : List ℕ) {x : ℕ}
    → All IsByte bs
    → combine_v3c_size bs ≡ done x
    → (2 ≤ length bs) × (x < 2 ^ 24)
unfolding combine_v3c_size
combine_v3c_size_bounds [] h e = cc
combine_v3c_size_bounds (a ∷ []) h e = cc
combine_v3c_size_bounds (a ∷ b ∷ []) h e = ground (arith, combine_2_value a b)
combine_v3c_size_bounds (a ∷ b ∷ c ∷ []) h e = ground (arith, combine_3_value a b c)
combine_v3c_size_bounds (a ∷ b ∷ c ∷ d ∷ bs) h e = cc

-- A V3C unit size that was read came from inside the file, in at least two bytes, and fits 24 bits.
pub read_v3c_size_bounds :
    (cbuf : List ℕ) (n p : ℕ) {x : ℕ}
    → All IsByte cbuf
    → read_v3c_size cbuf n p ≡ ok (done x)
    → (p + n ≤ length cbuf) × (2 ≤ n) × (x < 2 ^ 24)
unfolding read_v3c_size
read_v3c_size_bounds cbuf n p {x} h e = ground (
  arith,
  combine_v3c_size_bounds (take n (drop p cbuf)) {x = x}
      (All-take n (drop p cbuf) (All-drop p cbuf h)),
  length-take n (drop p cbuf),
)

-- The size field of a unit, in the three bytes that the program writes.
pub read_v3c_size-big_endian :
    (cbuf : List ℕ) (p x : ℕ) (rest : List ℕ)
    → x < 256 ^ 3
    → drop p cbuf ≡ big_endian 3 x ++ rest
    → read_v3c_size cbuf 3 p ≡ ok (done x)
unfolding read_v3c_size big_endian combine
read_v3c_size-big_endian cbuf p x rest hx e =
    let inside : p + 3 ≤ length cbuf = omega (arith, ap length e, length-drop p cbuf) in
    rw (e, le→leb (p + 3) (length cbuf) inside) (ground (arith, combine-big_endian 3 x))
