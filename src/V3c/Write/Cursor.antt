-- ===== src/V3c/Write/Cursor.antt =====
-- Writes through a cursor: what stands before `ptr` stays, and what is written takes the place of
-- the bytes behind it.
use rtp_benchmarks.Common.{
  ℕ, ◌+◌, ◌^◌, ◌≤◌, ◌<◌, ◌≡◌, refl, sym, ap, ◌∙◌, List, [], ◌++◌, append-nil, append_assoc, Result,
  ok, ◌>>=◌, arith, length, drop, drop-drop, length-append, length-drop, le→leb, add64,
  take-append_left, drop-append_left,
}
use rtp_benchmarks.V3c.Types.{store}
use rtp_benchmarks.V3c.Write.{Out, put}

-- The cursor behind `pre`, and the cursor after `bytes` have been written there.
abbrev pub after : List ℕ → List ℕ → List ℕ → Out
after pre bytes rest = ((pre ++ bytes) ++ drop (length bytes) rest, length (pre ++ bytes))

-- The step writes exactly `bytes`, wherever the buffer has room for them.
abbrev pub Writes : (Out → Result Out) → List ℕ → Type 0
Writes f bytes =
    (pre rest : List ℕ)
    → length bytes ≤ length rest
    → length pre + length bytes < 2 ^ 64
    → f (pre ++ rest, length pre) ≡ ok (after pre bytes rest)

drop-append : (pre xs : List ℕ) (n k : ℕ) → k ≡ length pre + n → drop k (pre ++ xs) ≡ drop n xs
drop-append pre xs n k e =
    sym (drop-drop (length pre) n k (pre ++ xs) e) ∙ ap (drop n) (drop-append_left pre xs)

pub put-Writes : (bytes : List ℕ) → Writes (put bytes) bytes
unfolding put store
put-Writes bytes pre rest h k =
    let fits : length pre + length bytes ≤ length (pre ++ rest) =
      omega (arith, length-append {0} pre rest) in
    let ends : add64 (length pre) (length bytes) ≡ length (pre ++ bytes) =
      omega (arith, length-append {0} pre bytes) in
    rw
      (le→leb _ _ fits, ends, take-append_left pre rest, drop-append pre rest (length bytes) _ refl)
      (rw (append_assoc pre bytes (drop (length bytes) rest)))

pub nothing-Writes : Writes ok []
nothing-Writes pre rest h k = rw append-nil

after-after :
    (pre a b rest : List ℕ) → after (pre ++ a) b (drop (length a) rest) ≡ after pre (a ++ b) rest
after-after pre a b rest = rw (
  append_assoc pre a b,
  drop-drop (length a) (length b) (length (a ++ b)) rest (length-append a b),
)

-- One step after another writes the bytes of both.
pub seq-Writes :
    (f g : Out → Result Out) (a b : List ℕ)
    → Writes f a
    → Writes g b
    → Writes (λ o. f o >>= g) (a ++ b)
seq-Writes f g a b wf wg pre rest h k =
    let la = length-append {0} a b in
    let lp = length-append {0} pre a in
    let ld = length-drop {0} (length a) rest in
    rw (wf pre rest (omega arith) (omega arith)) (
      wg (pre ++ a) (drop (length a) rest) (omega arith) (omega arith)
      ∙ ap ok (after-after pre a b rest))
