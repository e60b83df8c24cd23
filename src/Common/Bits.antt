-- ===== src/Common/Bits.antt =====
-- `|` of disjoint fields, and `&` with the masks of the program, as arithmetic.
use Prim.Native.Nat.{ℕ, zero, suc, ◌+◌, ◌*◌, ◌/◌, ◌%◌, ◌^◌, ◌≤◌, ◌<◌, max}
use Prim.Native.Nat.{bit_and, bit_or, digits, bitwise, bit_or-bitwise, bit_and-bitwise, min}
use mathlib.Core.Path.{◌≡◌, refl, ap, ◌∙◌}
use mathlib.Core.Bool.{Bool, true, ◌&&◌}
use native.Mathlib.Omega.{arith}
use native.Mathlib.Nat.{pow-suc}
use rtp_benchmarks.Common.Tests.{◌==◌, ==_iff}

-- Each operation is a recursion on binary digits, with the first number for fuel: `out` is applied to
-- the other number when the first is zero, and `op` to two digits.
module _ (out : ℕ → ℕ) (op : ℕ → ℕ → ℕ) where
  same_digits :
      (x y : ℕ) (fuel spare : ℕ)
      → x ≤ fuel
      → x ≤ spare
      → digits out op fuel x y ≡ digits out op spare x y
  same_digits zero y zero zero p q = refl
  same_digits zero y zero (suc spare) p q = refl
  same_digits zero y (suc fuel) zero p q = refl
  same_digits zero y (suc fuel) (suc spare) p q = refl
  same_digits (suc x) y zero spare p q = absurd (omega arith)
  same_digits (suc x) y (suc fuel) zero p q = absurd (omega arith)
  same_digits (suc x) y (suc fuel) (suc spare) p q =
      let halves = same_digits (suc x / 2) (y / 2) fuel spare (omega arith) (omega arith) in
      omega arith

  bitwise_step :
      (x y : ℕ)
      → bitwise out op (suc x) y ≡ bitwise out op (suc x / 2) (y / 2) * 2 + op (suc x % 2) (y % 2)
  bitwise_step x y =
      omega (arith, same_digits (suc x / 2) (y / 2) x (suc x / 2) (omega arith) (omega arith))

bit_or_step : (a b : ℕ) → bit_or a b ≡ bit_or (a / 2) (b / 2) * 2 + max (a % 2) (b % 2)
bit_or_step zero y =
    let whole : bit_or 0 y ≡ y = bit_or-bitwise 0 y in
    let half : bit_or 0 (y / 2) ≡ y / 2 = bit_or-bitwise 0 (y / 2) in omega arith
bit_or_step (suc x) y =
    let whole = bit_or-bitwise (suc x) y in
    let half = bit_or-bitwise (suc x / 2) (y / 2) in omega (arith, bitwise_step (λ b. b) max x y)

bit_and_step : (a b : ℕ) → bit_and a b ≡ bit_and (a / 2) (b / 2) * 2 + min (a % 2) (b % 2)
bit_and_step zero y =
    let whole : bit_and 0 y ≡ 0 = bit_and-bitwise 0 y in
    let half : bit_and 0 (y / 2) ≡ 0 = bit_and-bitwise 0 (y / 2) in omega arith
bit_and_step (suc x) y =
    let whole = bit_and-bitwise (suc x) y in
    let half = bit_and-bitwise (suc x / 2) (y / 2) in omega (arith, bitwise_step (λ b. 0) min x y)

bit_or-zero_fuel : (n a : ℕ) → a ≤ n → bit_or a 0 ≡ a
bit_or-zero_fuel n zero h = refl
bit_or-zero_fuel zero (suc a) h = absurd (omega arith)
bit_or-zero_fuel (suc n) (suc a) h =
    omega (arith, bit_or_step (suc a) 0, bit_or-zero_fuel n (suc a / 2) (omega arith))

pub bit_or-zero : (a : ℕ) → bit_or a 0 ≡ a
bit_or-zero a = bit_or-zero_fuel a a (omega arith)

-- Fields that do not overlap add up.
pub bit_or_disjoint : (k q r : ℕ) → r < 2 ^ k → bit_or (q * 2 ^ k) r ≡ q * 2 ^ k + r
bit_or_disjoint zero q r h = ground (arith, bit_or-zero q)
bit_or_disjoint (suc k) q r h = ground (
  arith,
  bit_or_step (q * 2 ^ suc k) r,
  pow-suc 2 k,
  ap (λ (t : ℕ). q * t) (pow-suc 2 k),
  bit_or_disjoint k q (r / 2) (omega (arith, pow-suc 2 k)),
)

-- Over the values of a byte, a law is checked by evaluation.
unfoldable pub every_below : (ℕ → Bool) → ℕ → Bool
every_below test zero = true
every_below test (suc bound) = every_below test bound && test bound

pub every_below_lem :
    (test : ℕ → Bool) (bound k : ℕ) → every_below test bound ≡ true → k < bound → test k ≡ true
unfolding every_below
every_below_lem test zero k e small = absurd (omega arith)
every_below_lem test (suc bound) k e small = ground (arith, every_below_lem test bound k)

-- Two functions that agree at every byte.
pub agree : (f g : ℕ → ℕ) → every_below (λ x. f x == g x) 256 ≡ true → (x : ℕ) → x < 256 → f x ≡ g x
agree f g e x h = (==_iff (f x) (g x)).0 (every_below_lem (λ y. f y == g y) 256 x e h)

-- The bit number `k`.
abbrev pub bit : ℕ → ℕ → ℕ
bit zero a = a % 2
bit (suc k) a = bit k (a / 2)

pub bit-bit_and : (k a b : ℕ) → bit k a ≡ 1 → bit k b ≡ 1 → bit k (bit_and a b) ≡ 1
bit-bit_and zero a b h g = omega (arith, bit_and_step a b)
bit-bit_and (suc k) a b h g =
    let half : bit_and a b / 2 ≡ bit_and (a / 2) (b / 2) = omega (arith, bit_and_step a b) in
    ap (bit k) half ∙ bit-bit_and k (a / 2) (b / 2) h g

pub bit-place : (k m r : ℕ) → r < 2 ^ k → bit k (m * 2 ^ k + r) ≡ m % 2
bit-place zero m r h = ground arith
bit-place (suc k) m r h =
    let half : (m * 2 ^ suc k + r) / 2 ≡ m * 2 ^ k + r / 2 =
      ground (arith, pow-suc 2 k, ap (λ (t : ℕ). m * t) (pow-suc 2 k)) in
    ap (bit k) half ∙ bit-place k m (r / 2) (omega (arith, pow-suc 2 k))

pub bit-zero : (k : ℕ) → bit k 0 ≡ 0
bit-zero zero = refl
bit-zero (suc k) = bit-zero k

and_odd : (x y z : ℕ) → z ≡ 2 * y + 1 → bit_and x z ≡ bit_and (x / 2) y * 2 + x % 2
and_odd x y z e =
    let low : min (x % 2) (z % 2) ≡ x % 2 = omega arith in
    let half : z / 2 ≡ y = omega arith in omega (arith, bit_and_step x z, ap (bit_and (x / 2)) half)

and_zero_fuel : (n x : ℕ) → x ≤ n → bit_and x 0 ≡ 0
and_zero_fuel n zero h = refl
and_zero_fuel zero (suc x) h = absurd (omega arith)
and_zero_fuel (suc n) (suc x) h =
    omega (arith, bit_and_step (suc x) 0, and_zero_fuel n (suc x / 2) (omega arith))

-- The six lowest bits of any number.
pub bit_and-six : (x : ℕ) → bit_and x 0x3f ≡ x % 64
bit_and-six x =
    let a : ℕ = x / 2 in
    let b : ℕ = a / 2 in
    let c : ℕ = b / 2 in
    let d : ℕ = c / 2 in
    let e : ℕ = d / 2 in
    omega (
      arith,
      and_odd x 31 63 refl,
      and_odd a 15 31 refl,
      and_odd b 7 15 refl,
      and_odd c 3 7 refl,
      and_odd d 1 3 refl,
      and_odd e 0 1 refl,
      and_zero_fuel (e / 2) (e / 2) (omega arith),
    )
