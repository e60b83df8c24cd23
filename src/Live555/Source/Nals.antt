-- ===== src/Live555/Source/Nals.antt =====
-- What `find_next_nal` of live555/source.cc gives at a start code and at the end of a file.
use rtp_benchmarks.Common.{
  ℕ, suc, ◌+◌, ◌-◌, ◌≤◌, ◌≡◌, refl, ap, ◌∙◌, Bool, true, false, List, [], ◌∷◌, ◌++◌, Option, none,
  some, ok, arith, All, IsByte, length, length-append, ltb, ◌==◌,
}
use rtp_benchmarks.Live555.Source.{skip_zeros, open_file, cut_nal, find_next_nal}
use rtp_benchmarks.Live555.Source.Streams.{
  Coded, code, written, IsNal, IsAt, IsAt-length, IsAt-behind,
}
use rtp_benchmarks.Live555.Source.Cuts.{find_startcode-written, skip_zeros-code}

-- The place of the next search, before and after the first one.
abbrev pub place : Option ℕ → ℕ
place none = 0
place (some p) = p

opened :
    (base : ℕ) (mem : List ℕ) (from : Option ℕ) (codes : List Coded)
    → All IsByte mem
    → All IsNal codes
    → IsAt mem (place from) (written codes)
    → open_file base mem from ≡ ok (place from)
unfolding open_file
opened base mem none codes a all at =
    find_startcode-written base mem 0 [] codes a at refl all ∙ ap ok (omega arith)
opened base mem (some p) codes a all at = refl

pub find_next_nal-none :
    (base : ℕ) (mem : List ℕ) (from : Option ℕ)
    → All IsByte mem
    → IsAt mem (place from) []
    → find_next_nal base mem from ≡ ok (none, place from)
unfolding find_next_nal cut_nal skip_zeros
find_next_nal-none base mem from a at =
    let total = IsAt-length mem (place from) [] at in
    let f : ltb (place from) (length mem) ≡ false = ground arith in
    let g : (place from == length mem) ≡ true = ground arith in
    rw (opened base mem from [] a record {} at, f, g) refl

skips_code :
    (mem : List ℕ) (p : ℕ) (long : Bool) (xs : List ℕ)
    → IsAt mem p (code long ++ xs)
    → 1 ≤ length xs
    → skip_zeros mem (suc (length mem)) p ≡ ok (p + length (code long))
skips_code mem p long xs at h =
    let total = IsAt-length mem p (code long ++ xs) at in
    let fuel : suc (length mem) ≡ suc (suc (suc (suc (length mem - 3)))) = size long at total in
    ap (λ f. skip_zeros mem f p) fuel ∙ skip_zeros-code mem p (length mem - 3) long xs at
  where
    size :
        (l : Bool)
        → IsAt mem p (code l ++ xs)
        → length mem ≡ p + length (code l ++ xs)
        → suc (length mem) ≡ suc (suc (suc (suc (length mem - 3))))
    size true a t = omega arith
    size false a t = omega arith

pub find_next_nal-some :
    (base : ℕ) (mem : List ℕ) (from : Option ℕ) (coded : Coded) (rest : List Coded)
    → All IsByte mem
    → All IsNal (coded ∷ rest)
    → IsAt mem (place from) (written (coded ∷ rest))
    → find_next_nal base mem from
      ≡ ok (
        some (length coded.1, place from + length (code coded.0)),
        place from + length (code coded.0) + length coded.1,
      )
unfolding find_next_nal cut_nal
find_next_nal-some base mem from coded rest a all at =
    let p = place from in
    let start = p + length (code coded.0) in
    let at' = IsAt-behind mem p start (code coded.0) (coded.1 ++ written rest) at refl in
    let total = IsAt-length mem start (coded.1 ++ written rest) at' in
    let size = length-append coded.1 (written rest) in
    let before = IsAt-length mem p (written (coded ∷ rest)) at in
    let g : (start == length mem) ≡ false = ground (arith, all.0.0) in
    let finds = find_startcode-written base mem start coded.1 rest a at' all.0.1 all.1 in
    let skips = skips_code mem p coded.0 (coded.1 ++ written rest) at (omega (arith, all.0.0)) in
    let e : start + length coded.1 - start ≡ length coded.1 = omega arith in
    rw (opened base mem from (coded ∷ rest) a all at, skips, g, finds, e) refl
