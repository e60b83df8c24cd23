-- ===== src/Live555/StartCode/Finds.antt =====
-- The search for a start code by words is the search byte by byte.
use rtp_benchmarks.Common.{
  ℕ, zero, suc, ◌+◌, ◌-◌, ◌*◌, ◌/◌, ◌%◌, ◌≤◌, ◌<◌, ◌≡◌, refl, sym, ap, ◌∙◌, Bool, true, false, List,
  none, some, Result, ok, arith, All, IsByte, length, ltb, if◌then◌else◌, min, Bool-cases, inl, inr,
}
use rtp_benchmarks.Live555.StartCode.{
  CodeScan, found, byte_loop, next_word, word_loop, scan_then, scan_end,
  ff_avc_find_startcode_internal,
}
use rtp_benchmarks.Live555.StartCode.Places.{
  is_start, first_scan, or_else, word_scan, byte_loop_lem, check_word_ok,
}

words :
    (p q r t : ℕ) (a b c d : Bool) (rest : CodeScan)
    → next_word
        (or_else
          (if a then some p else if b then some q else none)
          (if c then some r else if d then some t else none))
        (ok rest)
      ≡ ok (
          if a
          then found p
          else if b
          then found q
          else if c
          then found r
          else if d
          then found t
          else rest)
unfolding next_word
words p q r t true b c d rest = refl
words p q r t false true c d rest = refl
words p q r t false false true d rest = refl
words p q r t false false false true rest = refl
words p q r t false false false false rest = refl

abbrev by_places : List ℕ → ℕ → ℕ → ℕ → ℕ → ℕ → Result CodeScan
by_places mem k p r t u = ok (
    if is_start mem p
    then found p
    else if is_start mem (p + 1)
    then found (p + 1)
    else if is_start mem r
    then found r
    else if is_start mem t
    then found t
    else first_scan mem k u)

next_word-word_scan :
    (mem : List ℕ) (p k : ℕ)
    → next_word (word_scan mem p) (ok (first_scan mem k (p + 4)))
      ≡ ok (first_scan mem (suc (suc (suc (suc k)))) p)
next_word-word_scan mem p k =
    let e2 : p + 2 ≡ p + 1 + 1 = omega arith in
    let e3 : p + 2 + 1 ≡ p + 1 + 1 + 1 = omega arith in
    let e4 : p + 4 ≡ p + 1 + 1 + 1 + 1 = omega arith in
    words p (p + 1) (p + 2) (p + 2 + 1) (is_start mem p) (is_start mem (p + 1))
      (is_start mem (p + 2)) (is_start mem (p + 2 + 1)) (first_scan mem k (p + 4))
    ∙ ap (λ r. by_places mem k p r (p + 2 + 1) (p + 4)) e2
    ∙ ap (λ t. by_places mem k p (p + 1 + 1) t (p + 4)) e3
    ∙ ap (λ u. by_places mem k p (p + 1 + 1) (p + 1 + 1 + 1) u) e4

abbrev four : ℕ → ℕ
four zero = 0
four (suc n) = suc (suc (suc (suc (four n))))

-- A loop over words looks at each place of its words.
word_loop_lem :
    (mem : List ℕ) (stop n fuel p : ℕ)
    → All IsByte mem
    → (p < stop → stop + 5 ≤ length mem)
    → stop - p ≤ four n
    → four n ≤ stop - p + 3
    → n < fuel
    → word_loop mem stop fuel p ≡ ok (first_scan mem (four n) p)
unfolding word_loop
word_loop_lem mem stop n zero p a b lo hi h = absurd (omega arith)
word_loop_lem mem stop zero (suc fuel) p a b lo hi h =
    let f : ltb p stop ≡ false = ground arith in rw f refl
word_loop_lem mem stop (suc n) (suc fuel) p a b lo hi h =
    let f : ltb p stop ≡ true = ground arith in
    let inside : stop + 5 ≤ length mem = b (omega arith) in
    let rest =
      word_loop_lem mem stop n fuel (p + 4) a (λ _. inside) (omega arith) (omega arith)
        (omega arith) in
    rw (f, check_word_ok mem p a (omega arith), rest) (next_word-word_scan mem p (four n))

-- A search that goes on where the first has ended.
first_scan-then :
    (mem : List ℕ) (n m q p : ℕ) (next : ℕ → Result CodeScan)
    → q ≡ p + n
    → next q ≡ ok (first_scan mem m q)
    → scan_then (first_scan mem n p) next ≡ ok (first_scan mem (n + m) p)
unfolding scan_then
first_scan-then mem zero m q p next e h =
    let place : q ≡ p = omega arith in
    let count : m ≡ 0 + m = omega arith in
    ap next (sym place)
    ∙ h
    ∙ ap (λ r. ok (first_scan mem m r)) place
    ∙ ap (λ c. ok (first_scan mem c p)) count
first_scan-then mem (suc n) m q p next e h =
    let count : suc n + m ≡ suc (n + m) = omega arith in
    let rest = first_scan-then mem n m q (p + 1) next (omega arith) h in
    elim (Bool-cases (is_start mem p)) [ inl f ↦ rw (count, f) refl | inr f ↦ rw (count, f) rest ]

four_lem : (n : ℕ) → four n ≡ 4 * n
four_lem zero = refl
four_lem (suc n) = omega (arith, four_lem n)

-- The first start code from `p` on that does not lie at the very end, or `end`.
abbrev pub first_code : List ℕ → ℕ → ℕ → ℕ
first_code mem p end = scan_end end (first_scan mem (end - 3 - p) p)

-- The three loops, which step by one byte to an aligned address, then by four, and then by one,
-- answer what a search of each place gives: the first place from `p` on at which 0, 0, 1 stands with
-- at least one byte behind it, or `end`. They read nothing beyond `end` and end within the fuel.
pub ff_avc_find_startcode_internal-first_code :
    (base : ℕ) (mem : List ℕ) (p : ℕ)
    → All IsByte mem
    → ff_avc_find_startcode_internal base mem p (length mem) ≡ ok (first_code mem p (length mem))
unfolding ff_avc_find_startcode_internal
ff_avc_find_startcode_internal-first_code base mem p a =
    let end = length mem in
    let stop = min (p + (4 - (base + p) % 4)) (end - 3) in
    let n = stop - p in
    let p2 = p + n in
    let k = (end - 6 - p2 + 3) / 4 in
    let p3 = p2 + four k in
    let m = end - 3 - p3 in
    let four_k = four_lem k in
    let aligned = byte_loop_lem mem stop n (suc end) p (λ h. omega arith) refl (omega arith) in
    let words =
      word_loop_lem mem (end - 6) k (suc end) p2 a (λ h. omega arith) (omega arith) (omega arith)
        (omega arith) in
    let rest = byte_loop_lem mem (end - 3) m (suc end) p3 (λ h. omega arith) refl (omega arith) in
    let two =
      first_scan-then mem n (four k) p2 p (λ q. word_loop mem (end - 6) (suc end) q) refl words in
    let three =
      first_scan-then mem (n + four k) m p3 p (λ q. byte_loop mem (end - 3) (suc end) q)
        (omega arith) rest in
    let count : n + four k + m ≡ end - 3 - p = omega arith in
    rw (aligned, two, three) (ap (λ c. ok (scan_end end (first_scan mem c p))) count)
