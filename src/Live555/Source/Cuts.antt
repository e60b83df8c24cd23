-- ===== src/Live555/Source/Cuts.antt =====
-- What the searches of live555/source.cc find in a file of clean NAL units behind start codes.
use rtp_benchmarks.Common.{
  ℕ, zero, suc, ◌+◌, ◌-◌, ◌≤◌, ◌<◌, ◌≡◌, refl, sym, ap, ◌∙◌, Bool, true, false, ◌&&◌, List, [], ◌∷◌,
  ◌++◌, some, Result, ok, ◌>>=◌, arith, length, length-append, get_elem?, ltb, ◌==◌, if◌then◌else◌,
  All, IsByte, Bool-cases, inl, inr,
}
use rtp_benchmarks.Live555.StartCode.{byte_is, found, reached, scan_end, ff_avc_find_startcode}
use rtp_benchmarks.Live555.StartCode.Places.{is_start, first_scan}
use rtp_benchmarks.Live555.StartCode.Finds.{first_code, ff_avc_find_startcode_internal-first_code}
use rtp_benchmarks.Live555.Source.{skip_zeros}
use rtp_benchmarks.Live555.Source.Streams.{
  Coded, code, written, is_clean, IsNal, IsAt, IsAt-length, IsAt-behind, IsAt-get_elem?,
  IsAt-is_start, is_clean-is_start, is_clean-last,
}

-- A scan of places that start no code, and then of one that does.
first_scan-found :
    (mem : List ℕ) (n p k : ℕ)
    → ((i : ℕ) → i < k → is_start mem (p + i) ≡ false)
    → is_start mem (p + k) ≡ true
    → k < n
    → first_scan mem n p ≡ found (p + k)
first_scan-found mem zero p k h s l = absurd (omega arith)
first_scan-found mem (suc n) p zero h s l =
    let e : p + 0 ≡ p = omega arith in
    let here : is_start mem p ≡ true = rw e at s in rw (here, e) refl
first_scan-found mem (suc n) p (suc k) h s l =
    let e : p + 0 ≡ p = omega arith in
    let f : p + suc k ≡ p + 1 + k = omega arith in
    let here : is_start mem p ≡ false = rw e at (h 0 (omega arith)) in
    rw (here, f)
      (first_scan-found mem n (p + 1) k
        (λ i l'. ap (is_start mem) (omega arith) ∙ h (suc i) (omega arith))
        (ap (is_start mem) (omega arith) ∙ s) (omega arith))

first_scan-reached :
    (mem : List ℕ) (n p : ℕ)
    → ((i : ℕ) → i < n → is_start mem (p + i) ≡ false)
    → first_scan mem n p ≡ reached (p + n)
first_scan-reached mem zero p h = ap reached (omega arith)
first_scan-reached mem (suc n) p h =
    let e : p + 0 ≡ p = omega arith in
    let f : p + suc n ≡ p + 1 + n = omega arith in
    let here : is_start mem p ≡ false = rw e at (h 0 (omega arith)) in
    rw (here, f)
      (first_scan-reached mem n (p + 1)
        (λ i l. ap (is_start mem) (omega arith) ∙ h (suc i) (omega arith)))

clean_places :
    (mem : List ℕ) (p : ℕ) (nal rest : List ℕ)
    → IsAt mem p (nal ++ rest)
    → is_clean nal ≡ true
    → (i : ℕ) → i < length nal
    → is_start mem (p + i) ≡ false
clean_places mem p nal rest a c i h =
    IsAt-is_start mem p i (p + i) (nal ++ rest) a refl ∙ is_clean-is_start nal rest i c h

abbrev step_back : List ℕ → ℕ → ℕ → Result ℕ
step_back mem p out =
    if ltb p out && ltb out (length mem)
    then (byte_is mem (out - 1) 0 >>= (λ before. ok (if before then out - 1 else out)))
    else ok out

step_back_lem :
    (base : ℕ) (mem : List ℕ) (p out : ℕ)
    → All IsByte mem
    → first_code mem p (length mem) ≡ out
    → ff_avc_find_startcode base mem p (length mem) ≡ step_back mem p out
unfolding ff_avc_find_startcode
step_back_lem base mem p out a e =
    rw (ff_avc_find_startcode_internal-first_code base mem p a, e) refl

find_end :
    (base : ℕ) (mem : List ℕ) (p : ℕ) (nal : List ℕ)
    → All IsByte mem
    → IsAt mem p (nal ++ [])
    → is_clean nal ≡ true
    → ff_avc_find_startcode base mem p (length mem) ≡ ok (p + length nal)
unfolding scan_end
find_end base mem p nal a at c =
    let end = length mem in
    let n = end - 3 - p in
    let total = IsAt-length mem p (nal ++ []) at in
    let size = length-append nal [] in
    let scan = first_scan-reached mem n p (λ i h. clean_places mem p nal [] at c i (omega arith)) in
    let place : first_code mem p end ≡ p + length nal = rw scan (omega arith) in
    let behind : ltb (p + length nal) end ≡ false = ground arith in
    let both : (ltb p (p + length nal) && ltb (p + length nal) end) ≡ false =
      rw behind (ground arith) in
    rw (step_back_lem base mem p (p + length nal) a place, both) refl

find_long :
    (base : ℕ) (mem : List ℕ) (p : ℕ) (nal rest : List ℕ)
    → All IsByte mem
    → IsAt mem p (nal ++ (code true ++ rest))
    → 1 ≤ length rest
    → is_clean nal ≡ true
    → ff_avc_find_startcode base mem p (length mem) ≡ ok (p + length nal)
unfolding scan_end
find_long base mem p nal rest a at r c =
    let end = length mem in
    let n = end - 3 - p in
    let k = length nal in
    let more = IsAt-behind mem p (p + k) nal (code true ++ rest) at refl in
    let total = IsAt-length mem (p + k) (code true ++ rest) more in
    let first = IsAt-is_start mem (p + k) 0 (p + k) (code true ++ rest) more (omega arith) in
    let second = IsAt-is_start mem (p + k) 1 (p + suc k) (code true ++ rest) more (omega arith) in
    let zero_before =
      IsAt-get_elem? mem (p + k) 0 (p + suc k - 1) (code true ++ rest) more (omega arith) in
    let clean : (i : ℕ) → i < suc k → is_start mem (p + i) ≡ false = λ i h.
      elim (Bool-cases (i == k)) [
        | inl e ↦ let e' : i ≡ k = ground arith in ap (λ j. is_start mem (p + j)) e' ∙ first
        | inr e ↦ clean_places mem p nal (code true ++ rest) at c i (ground arith)
      ] in
    let scan = first_scan-found mem n p (suc k) clean second (omega arith) in
    let place : first_code mem p end ≡ p + suc k = rw scan refl in
    let low : ltb p (p + suc k) ≡ true = ground arith in
    let high : ltb (p + suc k) end ≡ true = ground arith in
    rw (step_back_lem base mem p (p + suc k) a place, low, high, zero_before) (ap ok (omega arith))

find_short :
    (base : ℕ) (mem : List ℕ) (p : ℕ) (nal rest : List ℕ)
    → All IsByte mem
    → IsAt mem p (nal ++ (code false ++ rest))
    → 1 ≤ length rest
    → is_clean nal ≡ true
    → ff_avc_find_startcode base mem p (length mem) ≡ ok (p + length nal)
unfolding scan_end
find_short base mem p nal rest a at r c =
    let end = length mem in
    let n = end - 3 - p in
    let k = length nal in
    let more = IsAt-behind mem p (p + k) nal (code false ++ rest) at refl in
    let total = IsAt-length mem (p + k) (code false ++ rest) more in
    let here = IsAt-is_start mem (p + k) 0 (p + k) (code false ++ rest) more (omega arith) in
    let scan =
      first_scan-found mem n p k (λ i h. clean_places mem p nal (code false ++ rest) at c i h) here
        (omega arith) in
    let place : first_code mem p end ≡ p + k = rw scan refl in
    step_back_lem base mem p (p + k) a place ∙ stays k refl
  where
    high : ltb (p + length nal) (length mem) ≡ true
    high =
        let more = IsAt-behind mem p (p + length nal) nal (code false ++ rest) at refl in
        let total = IsAt-length mem (p + length nal) (code false ++ rest) more in ground arith

    stays : (k : ℕ) → k ≡ length nal → step_back mem p (p + k) ≡ ok (p + length nal)
    stays zero e = let low : ltb p (p + 0) ≡ false = ground arith in rw low (ap ok (omega arith))
    stays (suc j) e =
        let low : ltb p (p + suc j) ≡ true = ground arith in
        let (b, last, f) = is_clean-last nal (code false ++ rest) j c (sym e) in
        let before =
          IsAt-get_elem? mem p j (p + suc j - 1) (nal ++ (code false ++ rest)) at (omega arith) in
        let e' : p + suc j ≡ p + length nal = omega arith in
        let high' : ltb (p + suc j) (length mem) ≡ true = rw e' high in
        rw (low, high', before, last, f) (ap ok e')

-- From clean bytes on, the search ends behind them: at the next start code, whichever it is, or at
-- the end of the file.
pub find_startcode-written :
    (base : ℕ) (mem : List ℕ) (p : ℕ) (nal : List ℕ) (codes : List Coded)
    → All IsByte mem
    → IsAt mem p (nal ++ written codes)
    → is_clean nal ≡ true
    → All IsNal codes
    → ff_avc_find_startcode base mem p (length mem) ≡ ok (p + length nal)
find_startcode-written base mem p nal [] a at c all = find_end base mem p nal a at c
find_startcode-written base mem p nal ((true, next) ∷ rest) a at c all =
    find_long base mem p nal (next ++ written rest) a at
      (omega (arith, all.0.0, length-append next (written rest))) c
find_startcode-written base mem p nal ((false, next) ∷ rest) a at c all =
    find_short base mem p nal (next ++ written rest) a at
      (omega (arith, all.0.0, length-append next (written rest))) c

skip_zero :
    (mem : List ℕ) (fuel p : ℕ)
    → get_elem? mem p ≡ some 0
    → p < length mem
    → skip_zeros mem (suc fuel) p ≡ skip_zeros mem fuel (p + 1)
unfolding skip_zeros
skip_zero mem fuel p e h = let f : ltb p (length mem) ≡ true = ground arith in rw (f, e) refl

skip_one :
    (mem : List ℕ) (fuel p : ℕ)
    → get_elem? mem p ≡ some 1
    → p < length mem
    → skip_zeros mem (suc fuel) p ≡ ok (p + 1)
unfolding skip_zeros
skip_one mem fuel p e h = let f : ltb p (length mem) ≡ true = ground arith in rw (f, e) refl

-- The loop over the zeros ends behind the start code.
pub skip_zeros-code :
    (mem : List ℕ) (p fuel : ℕ) (long : Bool) (rest : List ℕ)
    → IsAt mem p (code long ++ rest)
    → skip_zeros mem (suc (suc (suc (suc fuel)))) p ≡ ok (p + length (code long))
skip_zeros-code mem p fuel true rest at =
    let total = IsAt-length mem p (code true ++ rest) at in
    let e0 = IsAt-get_elem? mem p 0 p (code true ++ rest) at (omega arith) in
    let e1 = IsAt-get_elem? mem p 1 (p + 1) (code true ++ rest) at (omega arith) in
    let e2 = IsAt-get_elem? mem p 2 (p + 1 + 1) (code true ++ rest) at (omega arith) in
    let e3 = IsAt-get_elem? mem p 3 (p + 1 + 1 + 1) (code true ++ rest) at (omega arith) in
    skip_zero mem _ p e0 (omega arith)
    ∙ skip_zero mem _ (p + 1) e1 (omega arith)
    ∙ skip_zero mem _ (p + 1 + 1) e2 (omega arith)
    ∙ skip_one mem fuel (p + 1 + 1 + 1) e3 (omega arith)
    ∙ ap ok (omega arith)
skip_zeros-code mem p fuel false rest at =
    let total = IsAt-length mem p (code false ++ rest) at in
    let e0 = IsAt-get_elem? mem p 0 p (code false ++ rest) at (omega arith) in
    let e1 = IsAt-get_elem? mem p 1 (p + 1) (code false ++ rest) at (omega arith) in
    let e2 = IsAt-get_elem? mem p 2 (p + 1 + 1) (code false ++ rest) at (omega arith) in
    skip_zero mem _ p e0 (omega arith)
    ∙ skip_zero mem _ (p + 1) e1 (omega arith)
    ∙ skip_one mem _ (p + 1 + 1) e2 (omega arith)
    ∙ ap ok (omega arith)
