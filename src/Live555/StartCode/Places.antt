-- ===== src/Live555/StartCode/Places.antt =====
-- What the tests for a start code in live555/source.cc see at each place.
use rtp_benchmarks.Common.{
  ℕ, zero, suc, ◌+◌, ◌-◌, ◌*◌, ◌≤◌, ◌<◌, ◌≡◌, ◌≢◌, refl, ap, ◌∙◌, Bool, true, false, ◌&&◌, List,
  Option, none, some, ok, ◌>>=◌, arith, All, IsByte, All-get_elem?, length, get_elem?,
  get_elem?_of_lt, ltb, ◌==◌, ==_iff, if◌then◌else◌, Bool-cases, inl, inr,
}
use rtp_benchmarks.Live555.StartCode.{
  byte_is, and_also, is_code, CodeScan, found, reached, byte_loop, load_word, zero_bytes,
  check_half, or_half, check_word,
}
use rtp_benchmarks.Live555.StartCode.Words.{zero_bytes-second, zero_bytes-last}

abbrev pub eq_at : Option ℕ → ℕ → Bool
eq_at none v = false
eq_at (some b) v = b == v

-- The bytes 0, 0, 1 are at `p`.
abbrev pub is_start : List ℕ → ℕ → Bool
is_start mem p =
    eq_at (get_elem? mem p) 0 && eq_at (get_elem? mem (p + 1)) 0 && eq_at (get_elem? mem (p + 2)) 1

-- The first start code at one of `n` places from `p` on, or the place behind them.
abbrev pub first_scan : List ℕ → ℕ → ℕ → CodeScan
first_scan mem zero p = reached p
first_scan mem (suc n) p = if is_start mem p then found p else first_scan mem n (p + 1)

byte_is_ok :
    (mem : List ℕ) (p v : ℕ) → p < length mem → byte_is mem p v ≡ ok (eq_at (get_elem? mem p) v)
byte_is_ok mem p v h = let (b, e) = get_elem?_of_lt mem p h in rw e refl

and_also_ok : (a b : Bool) → and_also (ok a) (ok b) ≡ ok (a && b)
and_also_ok true b = refl
and_also_ok false b = refl

and_also_twice : (a b c : Bool) → and_also (ok a) (and_also (ok b) (ok c)) ≡ ok (a && b && c)
and_also_twice a b c = ground arith

is_code_ok : (mem : List ℕ) (p : ℕ) → p + 2 < length mem → is_code mem p ≡ ok (is_start mem p)
unfolding is_code
is_code_ok mem p h =
    let e0 = byte_is_ok mem p 0 (omega arith) in
    let e1 = byte_is_ok mem (p + 1) 0 (omega arith) in
    let e2 = byte_is_ok mem (p + 2) 1 (omega arith) in
    rw (e0, e1, e2)
      (and_also_twice (eq_at (get_elem? mem p) 0) (eq_at (get_elem? mem (p + 1)) 0)
        (eq_at (get_elem? mem (p + 2)) 1))

-- A byte loop that has enough rounds looks at each place below its bound.
pub byte_loop_lem :
    (mem : List ℕ) (stop n fuel p : ℕ)
    → (p < stop → stop + 2 ≤ length mem)
    → stop - p ≡ n
    → n < fuel
    → byte_loop mem stop fuel p ≡ ok (first_scan mem n p)
unfolding byte_loop
byte_loop_lem mem stop n zero p b e h = absurd (omega arith)
byte_loop_lem mem stop zero (suc fuel) p b e h =
    let f : ltb p stop ≡ false = ground arith in rw f refl
byte_loop_lem mem stop (suc n) (suc fuel) p b e h =
    let f : ltb p stop ≡ true = ground arith in
    let inside : stop + 2 ≤ length mem = b (omega arith) in
    let here = is_code_ok mem p (omega arith) in
    let rest = byte_loop_lem mem stop n fuel (p + 1) (λ _. inside) (omega arith) (omega arith) in
    elim (Bool-cases (is_start mem p)) [
      | inl g ↦ rw (f, here, g) refl
      | inr g ↦ rw (f, here, g) rest
    ]

halves :
    (p : ℕ) (a b c d e : Bool)
    → (if b
        then (and_also (ok a) (ok c) >>= (λ first.
            if first
            then ok (some p)
            else (and_also (ok d) (ok e)
                >>= (λ second. ok (if second then some (p + 1) else none)))))
        else ok none)
      ≡ ok (if a && b && c then some p else if b && d && e then some (p + 1) else none)
halves p true true true d e = refl
halves p true true false true e = refl
halves p true true false false e = refl
halves p false true c true e = refl
halves p false true c false e = refl
halves p true false c d e = refl
halves p false false c d e = refl

-- What the two tests in the body of the second loop find in their four and in all six bytes.
abbrev pub half_scan : List ℕ → ℕ → Option ℕ
half_scan mem p =
    if is_start mem p then some p else if is_start mem (p + 1) then some (p + 1) else none

check_half_ok :
    (mem : List ℕ) (p : ℕ) → p + 3 < length mem → check_half mem p ≡ ok (half_scan mem p)
unfolding check_half
check_half_ok mem p h =
    let e0 = byte_is_ok mem p 0 (omega arith) in
    let e1 = byte_is_ok mem (p + 1) 0 (omega arith) in
    let e2 = byte_is_ok mem (p + 2) 1 (omega arith) in
    let e3 = byte_is_ok mem (p + 2) 0 (omega arith) in
    let e4 = byte_is_ok mem (p + 3) 1 (omega arith) in
    let z1 : p + 1 + 1 ≡ p + 2 = omega arith in
    let z2 : p + 1 + 2 ≡ p + 3 = omega arith in
    rw (e0, e1, e2, e3, e4, z1, z2)
      (halves p (eq_at (get_elem? mem p) 0) (eq_at (get_elem? mem (p + 1)) 0)
        (eq_at (get_elem? mem (p + 2)) 1) (eq_at (get_elem? mem (p + 2)) 0)
        (eq_at (get_elem? mem (p + 3)) 1))

abbrev pub or_else : Option ℕ → Option ℕ → Option ℕ
or_else none second = second
or_else (some p) second = some p

abbrev pub word_scan : List ℕ → ℕ → Option ℕ
word_scan mem p = or_else (half_scan mem p) (half_scan mem (p + 2))

or_half_ok : (a b : Option ℕ) → or_half a (ok b) ≡ ok (or_else a b)
unfolding or_half
or_half_ok none b = refl
or_half_ok (some p) b = refl

not_true : {b : Bool} → b ≢ true → b ≡ false
not_true {b = true} h = absurd (h refl)
not_true {b = false} h = refl

-- No half starts a code when its second byte is not zero.
half_scan-none :
    (mem : List ℕ) (p : ℕ) → eq_at (get_elem? mem (p + 1)) 0 ≡ false → half_scan mem p ≡ none
half_scan-none mem p h = rw h (ground arith)

load_word_ok :
    (mem : List ℕ) (p : ℕ)
    → All IsByte mem
    → p + 3 < length mem
    → (x : ℕ) × (load_word mem p ≡ ok x)
      × (eq_at (get_elem? mem (p + 1)) 0 ≡ true → zero_bytes x ≢ 0)
      × (eq_at (get_elem? mem (p + 3)) 0 ≡ true → zero_bytes x ≢ 0)
unfolding load_word
load_word_ok mem p a h =
    let (b0, e0) = get_elem?_of_lt mem p (omega arith) in
    let (b1, e1) = get_elem?_of_lt mem (p + 1) (omega arith) in
    let (b2, e2) = get_elem?_of_lt mem (p + 2) (omega arith) in
    let (b3, e3) = get_elem?_of_lt mem (p + 3) (omega arith) in
    let h0 = All-get_elem? IsByte mem p a e0 in
    let h1 = All-get_elem? IsByte mem (p + 1) a e1 in
    let h2 = All-get_elem? IsByte mem (p + 2) a e2 in
    let h3 = All-get_elem? IsByte mem (p + 3) a e3 in
    let x = b0 + 256 * b1 + 65536 * b2 + 16777216 * b3 in
    (
      x,
      rw (e0, e1, e2, e3) refl,
      λ z.
          let z1 : b1 ≡ 0 = (==_iff b1 0).0 (rw e1 at z) in
          zero_bytes-second b0 b2 b3 x h0 h2 h3 (omega arith),
      λ z.
          let z3 : b3 ≡ 0 = (==_iff b3 0).0 (rw e3 at z) in
          zero_bytes-last b0 b1 b2 x h0 h1 h2 (omega arith),
    )

pub check_word_ok :
    (mem : List ℕ) (p : ℕ)
    → All IsByte mem
    → p + 5 < length mem
    → check_word mem p ≡ ok (word_scan mem p)
unfolding check_word
check_word_ok mem p a h =
    let (x, e, second, last) = load_word_ok mem p a (omega arith) in
    elim (Bool-cases (zero_bytes x == 0)) [
      | inr f ↦
          rw (e, f, check_half_ok mem p (omega arith), check_half_ok mem (p + 2) (omega arith))
            (or_half_ok (half_scan mem p) (half_scan mem (p + 2)))
      | inl f ↦
          let z = (==_iff (zero_bytes x) 0).0 f in
          let n1 = half_scan-none mem p (not_true (λ t. second t z)) in
          let place : p + 2 + 1 ≡ p + 3 = omega arith in
          let n3 =
            half_scan-none mem (p + 2)
              (ap (λ q. eq_at (get_elem? mem q) 0) place ∙ not_true (λ t. last t z)) in
          rw (e, f, n1, n3) refl
    ]
