-- ===== src/V3c/Masks.antt =====
-- The masks of the program on one byte, as arithmetic; each is a table of 256 entries.
use rtp_benchmarks.Common.{ℕ, ◌*◌, ◌/◌, ◌%◌, ◌≡◌, refl, bit_and, IsByte}
use rtp_benchmarks.Common.Bits.{agree, every_below}

pub low_three : (x : ℕ) → IsByte x → bit_and x 0b111 ≡ x % 8
unfolding every_below
low_three = agree _ _ refl

pub top_bit : (x : ℕ) → IsByte x → bit_and x 0b1000_0000 ≡ x / 128 * 128
unfolding every_below
top_bit = agree _ _ refl

pub middle_six : (x : ℕ) → IsByte x → bit_and x 0b0111_1110 ≡ x / 2 % 64 * 2
unfolding every_below
middle_six = agree _ _ refl

pub top_five : (x : ℕ) → IsByte x → bit_and x 0b1111_1000 ≡ x / 8 * 8
unfolding every_below
top_five = agree _ _ refl

pub low_bit : (x : ℕ) → IsByte x → bit_and x 0b1 ≡ x % 2
unfolding every_below
low_bit = agree _ _ refl

pub top_three : (x : ℕ) → IsByte x → bit_and x 0b1110_0000 ≡ x / 32 * 32
unfolding every_below
top_three = agree _ _ refl

pub bit_four : (x : ℕ) → IsByte x → bit_and x 0b0001_0000 ≡ x / 16 % 2 * 16
unfolding every_below
bit_four = agree _ _ refl

pub top_six : (x : ℕ) → IsByte x → bit_and x 0b1111_1100 ≡ x / 4 * 4
unfolding every_below
top_six = agree _ _ refl

pub low_two : (x : ℕ) → IsByte x → bit_and x 0b11 ≡ x % 4
unfolding every_below
low_two = agree _ _ refl

pub bits_one_to_four : (x : ℕ) → IsByte x → bit_and x 0b0001_1110 ≡ x / 2 % 16 * 2
unfolding every_below
bits_one_to_four = agree _ _ refl

pub bits_one_to_three : (x : ℕ) → IsByte x → bit_and x 0b1110 ≡ x / 2 % 8 * 2
unfolding every_below
bits_one_to_three = agree _ _ refl

pub low_six : (x : ℕ) → IsByte x → bit_and x 0b11_1111 ≡ x % 64
unfolding every_below
low_six = agree _ _ refl

pub bit_three : (x : ℕ) → IsByte x → bit_and x 0b1000 ≡ x / 8 % 2 * 8
unfolding every_below
bit_three = agree _ _ refl

pub bit_six : (x : ℕ) → IsByte x → bit_and x 0b100_0000 ≡ x / 64 % 2 * 64
unfolding every_below
bit_six = agree _ _ refl

pub bits_three_and_four : (x : ℕ) → IsByte x → bit_and x 0b1_1000 ≡ x / 8 % 4 * 8
unfolding every_below
bits_three_and_four = agree _ _ refl
