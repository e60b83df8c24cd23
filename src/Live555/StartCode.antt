-- ===== src/Live555/StartCode.antt =====
-- `ff_avc_find_startcode_internal` and `ff_avc_find_startcode` of live555/source.cc, which search a
-- file for the bytes 0, 0, 1, four bytes at a time where they can. A pointer is an offset in the
-- file, and `base` is the address at which the file lies. The source moves `end` back by three and by
-- six bytes and tests `p < end`; here `end` stays, and `end - 3` and `end - 6` stop at 0, which no
-- `p` is below.
pub mod Words
pub mod Places
pub mod Finds
pub mod Bounds
use rtp_benchmarks.Common.{
  ℕ, zero, suc, ◌+◌, ◌-◌, ◌*◌, ◌/◌, ◌%◌, ◌^◌, ◌≡◌, Bool, true, false, not, ◌||◌, ◌&&◌, List, [],
  ◌∷◌, Option, none, some, Result, ok, err, Fault, ◌>>=◌, ltb, leb, ◌==◌, if◌then◌else◌, u32,
  length, bit_and, min,
}
use rtp_benchmarks.V3c.Types.{load}

-- `*p == v`.
abbrev pub byte_is : List ℕ → ℕ → ℕ → Result Bool
byte_is mem p v = do b ← load mem p; ok (b == v)

-- `&&`, which does not read its second operand when the first is false.
abbrev pub and_also : Result Bool → Result Bool → Result Bool
and_also (err e) second = err e
and_also (ok false) second = ok false
and_also (ok true) second = second

-- `p[0] == 0 && p[1] == 0 && p[2] == 1`.
unfoldable pub is_code : List ℕ → ℕ → Result Bool
is_code mem p =
    and_also (byte_is mem p 0) (and_also (byte_is mem (p + 1) 0) (byte_is mem (p + 2) 1))

-- How a loop ends: the function returns, or the loop is left.
pub data CodeScan : Type 0 where
  found : ℕ → CodeScan
  reached : ℕ → CodeScan

-- `for (; p < stop; p++)`.
unfoldable pub byte_loop : List ℕ → ℕ → ℕ → ℕ → Result CodeScan
byte_loop mem stop zero p = err Fault.out_of_fuel
byte_loop mem stop (suc fuel) p =
    let rest = byte_loop mem stop fuel (p + 1) in
    if ltb p stop
    then (is_code mem p >>= (λ here. if here then ok (found p) else rest))
    else ok (reached p)

-- A `uint32_t` at `p`, on a little-endian machine.
unfoldable pub load_word : List ℕ → ℕ → Result ℕ
load_word mem p = do
  b0 ← load mem p
  b1 ← load mem (p + 1)
  b2 ← load mem (p + 2)
  b3 ← load mem (p + 3)
  ok (b0 + 256 * b1 + 65536 * b2 + 16777216 * b3)

-- `(x - 0x01010101) & (~x) & 0x80808080`.
unfoldable pub zero_bytes : ℕ → ℕ
zero_bytes x = bit_and (bit_and (u32 (x + (2 ^ 32 - 0x01010101))) (2 ^ 32 - 1 - x)) 0x80808080

-- The `if` on `p[1]`, and with `p + 2` for `p` the `if` on `p[3]`: where it returns, if it does.
unfoldable pub check_half : List ℕ → ℕ → Result (Option ℕ)
check_half mem p = byte_is mem (p + 1) 0 >>= (λ middle.
    if middle
    then (and_also (byte_is mem p 0) (byte_is mem (p + 2) 1) >>= (λ first.
        if first
        then ok (some p)
        else (and_also (byte_is mem (p + 2) 0) (byte_is mem (p + 3) 1)
            >>= (λ second. ok (if second then some (p + 1) else none)))))
    else ok none)

unfoldable pub or_half : Option ℕ → Result (Option ℕ) → Result (Option ℕ)
or_half none second = second
or_half (some p) second = ok (some p)

-- The body of the second loop.
unfoldable pub check_word : List ℕ → ℕ → Result (Option ℕ)
check_word mem p = load_word mem p >>= (λ x.
    if zero_bytes x == 0
    then ok none
    else (check_half mem p >>= (λ first. or_half first (check_half mem (p + 2)))))

-- What the loop does with the body's answer.
unfoldable pub next_word : Option ℕ → Result CodeScan → Result CodeScan
next_word none rest = rest
next_word (some p) rest = ok (found p)

-- `for (; p < stop; p += 4)`.
unfoldable pub word_loop : List ℕ → ℕ → ℕ → ℕ → Result CodeScan
word_loop mem stop zero p = err Fault.out_of_fuel
word_loop mem stop (suc fuel) p =
    let rest = word_loop mem stop fuel (p + 4) in
    if ltb p stop then (check_word mem p >>= (λ here. next_word here rest)) else ok (reached p)

unfoldable pub scan_then : CodeScan → (ℕ → Result CodeScan) → Result CodeScan
scan_then (found p) next = ok (found p)
scan_then (reached p) next = next p

unfoldable pub scan_end : ℕ → CodeScan → ℕ
scan_end end (found p) = p
scan_end end (reached p) = end

unfoldable pub ff_avc_find_startcode_internal : ℕ → List ℕ → ℕ → ℕ → Result ℕ
ff_avc_find_startcode_internal base mem p end = do
  aligned ← byte_loop mem (min (p + (4 - (base + p) % 4)) (end - 3)) (suc end) p
  words ← scan_then aligned (λ p. word_loop mem (end - 6) (suc end) p)
  rest ← scan_then words (λ p. byte_loop mem (end - 3) (suc end) p)
  ok (scan_end end rest)

-- `if(p < out && out < end && !out[-1]) out--`.
unfoldable pub ff_avc_find_startcode : ℕ → List ℕ → ℕ → ℕ → Result ℕ
ff_avc_find_startcode base mem p end = ff_avc_find_startcode_internal base mem p end >>= (λ out.
    if ltb p out && ltb out end
    then (byte_is mem (out - 1) 0 >>= (λ before. ok (if before then out - 1 else out)))
    else ok out)
