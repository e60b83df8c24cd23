-- ===== src/Util/Chunks.antt =====
-- `get_chunk_sizes` of util/util.cc: the sizes that a chunk file holds, eight bytes each.
use rtp_benchmarks.Common.{
  ℕ, zero, suc, ◌+◌, ◌*◌, ◌/◌, ◌%◌, ◌^◌, ◌<◌, ◌≡◌, refl, ap, List, [], ◌∷◌, ◌++◌, Option, none,
  some, arith, All, length,
}

-- A `uint64_t` as the machines that the benchmarks run on store it, the least byte first.
unfoldable pub from_bytes : List ℕ → ℕ
from_bytes [] = 0
from_bytes (b ∷ bs) = b + from_bytes bs * 256

unfoldable pub to_bytes : ℕ → ℕ → List ℕ
to_bytes zero x = []
to_bytes (suc n) x = x % 256 ∷ to_bytes n (x / 256)

-- The `while` loop: it ends at the first read that does not find eight bytes.
pub read_sizes : List ℕ → List ℕ
unfolding from_bytes
read_sizes (a ∷ b ∷ c ∷ d ∷ e ∷ f ∷ g ∷ h ∷ rest) =
    from_bytes (a ∷ b ∷ c ∷ d ∷ e ∷ f ∷ g ∷ h ∷ []) ∷ read_sizes rest
read_sizes _ = []

-- On the content of the file, or on `none` when it does not open, and on the vector so far.
pub get_chunk_sizes : Option (List ℕ) → List ℕ → List ℕ
get_chunk_sizes none chunk_sizes = chunk_sizes
get_chunk_sizes (some file) chunk_sizes = chunk_sizes ++ read_sizes file

-- The bytes of a whole chunk file.
unfoldable pub sizes_bytes : List ℕ → List ℕ
sizes_bytes [] = []
sizes_bytes (x ∷ xs) = to_bytes 8 x ++ sizes_bytes xs

read_sizes_short : (tail : List ℕ) → length tail < 8 → read_sizes tail ≡ []
unfolding read_sizes
read_sizes_short [] h = refl
read_sizes_short (a ∷ []) h = refl
read_sizes_short (a ∷ b ∷ []) h = refl
read_sizes_short (a ∷ b ∷ c ∷ []) h = refl
read_sizes_short (a ∷ b ∷ c ∷ d ∷ []) h = refl
read_sizes_short (a ∷ b ∷ c ∷ d ∷ e ∷ []) h = refl
read_sizes_short (a ∷ b ∷ c ∷ d ∷ e ∷ f ∷ []) h = refl
read_sizes_short (a ∷ b ∷ c ∷ d ∷ e ∷ f ∷ g ∷ []) h = refl
read_sizes_short (a ∷ b ∷ c ∷ d ∷ e ∷ f ∷ g ∷ i ∷ tail) h = absurd (omega arith)

read_sizes-sizes_bytes :
    (xs tail : List ℕ)
    → All (λ x. x < 2 ^ 64) xs
    → length tail < 8
    → read_sizes (sizes_bytes xs ++ tail) ≡ xs
unfolding read_sizes sizes_bytes to_bytes
read_sizes-sizes_bytes [] tail a t = read_sizes_short tail t
read_sizes-sizes_bytes (x ∷ xs) tail (h, a) t =
    rw (read_sizes-sizes_bytes xs tail a t) (ap (λ y. y ∷ xs) (omega arith))

-- From a file of sizes, each in eight bytes, with at most seven more bytes behind them,
-- `get_chunk_sizes` appends exactly those sizes.
pub get_chunk_sizes-sizes_bytes :
    (xs tail chunk_sizes : List ℕ)
    → All (λ x. x < 2 ^ 64) xs
    → length tail < 8
    → get_chunk_sizes (some (sizes_bytes xs ++ tail)) chunk_sizes ≡ chunk_sizes ++ xs
unfolding get_chunk_sizes
get_chunk_sizes-sizes_bytes xs tail chunk_sizes a t =
    ap (λ l. chunk_sizes ++ l) (read_sizes-sizes_bytes xs tail a t)
