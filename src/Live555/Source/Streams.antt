-- ===== src/Live555/Source/Streams.antt =====
-- Files that live555/source.cc reads: NAL units, each behind a start code of three or four bytes.
use rtp_benchmarks.Common.{
  ℕ, zero, suc, ◌+◌, ◌≤◌, ◌<◌, ◌≡◌, refl, sym, ap, ◌∙◌, Bool, true, false, not, ◌&&◌, List, [], ◌∷◌,
  ◌++◌, some, arith, length, length-append, get_elem?, get_elem?-drop, take, drop, length-drop,
  drop-append_left, drop-drop, take-append_left, ◌==◌,
}
use rtp_benchmarks.Live555.StartCode.Places.{is_start}

-- A NAL unit with the length of its start code: four bytes when it is true, otherwise three.
abbrev pub Coded : Type 0
Coded = Bool × List ℕ

abbrev pub code : Bool → List ℕ
code true = 0 ∷ 0 ∷ 0 ∷ 1 ∷ []
code false = 0 ∷ 0 ∷ 1 ∷ []

abbrev pub written : List Coded → List ℕ
written [] = []
written (coded ∷ rest) = code coded.0 ++ (coded.1 ++ written rest)

-- No start code is inside the bytes, nor begins in them, since the last of them is not zero.
abbrev pub is_clean : List ℕ → Bool
is_clean [] = true
is_clean (b ∷ []) = not (b == 0)
is_clean (b ∷ c ∷ rest) = not (is_start (b ∷ c ∷ rest) 0) && is_clean (c ∷ rest)

-- A NAL unit has a byte, and is clean.
abbrev pub IsNal : Coded → Type 0
IsNal coded = (1 ≤ length coded.1) × (is_clean coded.1 ≡ true)

-- The file has these bytes from the place `p` to its end.
abbrev pub IsAt : List ℕ → ℕ → List ℕ → Type 0
IsAt mem p bytes = (p ≤ length mem) × (drop p mem ≡ bytes)

pub IsAt-length :
    (mem : List ℕ) (p : ℕ) (bytes : List ℕ) → IsAt mem p bytes → length mem ≡ p + length bytes
IsAt-length mem p bytes (h, e) = omega (arith, ap length e, length-drop p mem)

pub IsAt-behind :
    (mem : List ℕ) (p q : ℕ) (xs ys : List ℕ)
    → IsAt mem p (xs ++ ys)
    → q ≡ p + length xs
    → IsAt mem q ys
IsAt-behind mem p q xs ys (h, e) f = (
  omega (arith, IsAt-length mem p (xs ++ ys) (h, e), length-append xs ys),
  sym (drop-drop p (length xs) q mem f) ∙ ap (λ l. drop (length xs) l) e ∙ drop-append_left xs ys,
)

pub IsAt-get_elem? :
    (mem : List ℕ) (p i k : ℕ) (bytes : List ℕ)
    → IsAt mem p bytes
    → k ≡ p + i
    → get_elem? mem k ≡ get_elem? bytes i
IsAt-get_elem? mem p i k bytes (h, e) f =
    sym (get_elem?-drop p i k mem f) ∙ ap (λ l. get_elem? l i) e

pub IsAt-is_start :
    (mem : List ℕ) (p i k : ℕ) (bytes : List ℕ)
    → IsAt mem p bytes
    → k ≡ p + i
    → is_start mem k ≡ is_start bytes i
IsAt-is_start mem p i k bytes a f =
    let e0 = IsAt-get_elem? mem p i k bytes a f in
    let e1 = IsAt-get_elem? mem p (i + 1) (k + 1) bytes a (omega arith) in
    let e2 = IsAt-get_elem? mem p (i + 2) (k + 2) bytes a (omega arith) in rw (e0, e1, e2) refl

pub IsAt-take :
    (mem : List ℕ) (p : ℕ) (xs ys : List ℕ)
    → IsAt mem p (xs ++ ys)
    → take (length xs) (drop p mem) ≡ xs
IsAt-take mem p xs ys (h, e) = rw e (take-append_left xs ys)

is_start-suc : (b : ℕ) (xs : List ℕ) (i : ℕ) → is_start (b ∷ xs) (suc i) ≡ is_start xs i
is_start-suc b xs i =
    let e1 : suc i + 1 ≡ suc (i + 1) = omega arith in
    let e2 : suc i + 2 ≡ suc (i + 2) = omega arith in rw (e1, e2) refl

-- No start code begins in clean bytes, whatever is behind them.
pub is_clean-is_start :
    (xs ys : List ℕ) (i : ℕ) → is_clean xs ≡ true → i < length xs → is_start (xs ++ ys) i ≡ false
is_clean-is_start [] ys i c h = absurd (omega arith)
is_clean-is_start (b ∷ []) ys zero c h = ground arith
is_clean-is_start (b ∷ []) ys (suc i) c h = absurd (omega arith)
is_clean-is_start (b ∷ c ∷ []) ys zero k h = ground arith
is_clean-is_start (b ∷ c ∷ d ∷ rest) ys zero k h = ground arith
is_clean-is_start (b ∷ c ∷ rest) ys (suc i) k h =
    is_start-suc b (c ∷ rest ++ ys) i
    ∙ is_clean-is_start (c ∷ rest) ys i (ground arith) (omega arith)

pub is_clean-last :
    (xs ys : List ℕ) (k : ℕ)
    → is_clean xs ≡ true
    → length xs ≡ suc k
    → (b : ℕ) × (get_elem? (xs ++ ys) k ≡ some b) × ((b == 0) ≡ false)
is_clean-last [] ys k c h = absurd (omega arith)
is_clean-last (b ∷ []) ys zero c h = (b, refl, ground arith)
is_clean-last (b ∷ []) ys (suc k) c h = absurd (omega arith)
is_clean-last (b ∷ c ∷ rest) ys zero k h = absurd (omega arith)
is_clean-last (b ∷ c ∷ rest) ys (suc k) l h =
    is_clean-last (c ∷ rest) ys k (ground arith) (omega arith)
