-- ===== src/Common/Words.antt =====
-- Casts to the fixed widths, shifts, and the arithmetic of `uint64_t`.
use Prim.Native.Nat.{ℕ, ◌+◌, ◌*◌, ◌/◌, ◌%◌, ◌^◌, ◌<◌}
use mathlib.Core.Path.{◌≡◌}
use native.Mathlib.Omega.{arith}

abbrev pub u8 : ℕ → ℕ
u8 n = n % 2 ^ 8

abbrev pub u16 : ℕ → ℕ
u16 n = n % 2 ^ 16

abbrev pub u32 : ℕ → ℕ
u32 n = n % 2 ^ 32

abbrev pub u64 : ℕ → ℕ
u64 n = n % 2 ^ 64

infixl 75 ◌<<<◌ ◌>>>◌
abbrev pub ◌<<<◌ : ℕ → ℕ → ℕ
x <<< k = x * 2 ^ k

abbrev pub ◌>>>◌ : ℕ → ℕ → ℕ
x >>> k = x / 2 ^ k

-- `uint64_t` addition.
abbrev pub add64 : ℕ → ℕ → ℕ
add64 a b = u64 (a + b)

-- A byte of a file or of a buffer.
abbrev pub IsByte : ℕ → Type 0
IsByte b = b < 256

pub add64_small : (a b : ℕ) → a + b < 2 ^ 64 → add64 a b ≡ a + b
add64_small a b h = omega arith
