-- ===== src/Util/FrameStart/Finds.antt =====
-- `get_next_frame_start` against a search that looks for the three bytes 0, 0, 1 at each place.
use rtp_benchmarks.Common.{
  ℕ, zero, suc, ◌+◌, ◌^◌, ◌≤◌, ◌<◌, ◌≡◌, ◌≢◌, refl, sym, ap, ◌∙◌, Bool, true, false, ◌&&◌, List, [],
  ◌∷◌, ◌++◌, Option, none, some, Result, ok, arith, length, length-append, length-drop,
  length-replicate, ==_iff, drop, drop-drop, replicate, get_elem?, get_elem?-drop, lt_of_get_elem?,
  ltb, leb, ◌==◌, if◌then◌else◌, u8, u32, Bool-cases, inl, inr, lt→ltb,
}
use rtp_benchmarks.V3c.Types.{load}
use rtp_benchmarks.Util.FrameStart.{not_found, count, frame_step, frame_loop, get_next_frame_start}

-- The list begins with the short start code.
abbrev pub starts : List ℕ → Bool
starts (a ∷ b ∷ c ∷ rest) = a == 0 && (b == 0 && (c == 1))
starts _ = false

abbrev pub further : Option ℕ → Option ℕ
further none = none
further (some n) = some (suc n)

-- How many bytes there are up to the end of the first start code.
unfoldable pub code_end : List ℕ → Option ℕ
code_end [] = none
code_end (b ∷ bs) = if starts (b ∷ bs) then some 3 else further (code_end bs)

-- No run of zeros is longer than the counter can tell, with `z` zeros before.
unfoldable pub IsShort : ℕ → List ℕ → Type 0
IsShort z [] = Unit {0}
IsShort z (b ∷ bs) = if b == 0 then ((suc z < 255) × IsShort (suc z) bs) else IsShort 0 bs

abbrev shift : ℕ → Option ℕ → Option ℕ
shift k none = none
shift k (some n) = some (k + n)

further-shift : (k : ℕ) (r : Option ℕ) → further (shift k r) ≡ shift (suc k) r
further-shift k none = refl
further-shift k (some n) = ap some (omega arith)

further_lem : (r : Option ℕ) → further r ≡ shift 1 r
further_lem none = refl
further_lem (some n) = ap some (omega arith)

starts-one : (b : ℕ) (bs : List ℕ) → b ≢ 0 → starts (b ∷ bs) ≡ false
starts-one b [] h = refl
starts-one b (c ∷ []) h = refl
starts-one b (c ∷ d ∷ bs) h = ground arith

starts-two : (b : ℕ) (bs : List ℕ) → b ≢ 0 → starts (0 ∷ b ∷ bs) ≡ false
starts-two b [] h = refl
starts-two b (c ∷ bs) h = ground arith

starts-zeros :
    (z b : ℕ) (bs : List ℕ) → b ≢ 1 → starts (0 ∷ 0 ∷ (replicate z 0 ++ (b ∷ bs))) ≡ false
starts-zeros zero b bs h = ground arith
starts-zeros (suc z) b bs h = refl

-- Zeros and then a byte that is no zero, which ends a start code or does not.
code_end-zeros :
    (z b : ℕ) (bs : List ℕ)
    → b ≢ 0
    → (leb 2 z && (b == 1)) ≡ false
    → code_end (replicate z 0 ++ (b ∷ bs)) ≡ shift (suc z) (code_end bs)
unfolding code_end
code_end-zeros zero b bs n h = rw (starts-one b bs n) (further_lem (code_end bs))
code_end-zeros (suc zero) b bs n h =
    rw (starts-two b bs n, starts-one b bs n)
      (ap further (further_lem (code_end bs)) ∙ further-shift 1 (code_end bs))
code_end-zeros (suc (suc z)) b bs n h =
    let other : b ≢ 1 = λ e. ground arith in
    let rest = code_end-zeros (suc z) b bs n (ground arith) in
    rw (starts-zeros z b bs other) (ap further rest ∙ further-shift (suc (suc z)) (code_end bs))

code_end-found : (z : ℕ) (bs : List ℕ) → 2 ≤ z → code_end (replicate z 0 ++ (1 ∷ bs)) ≡ some (z + 1)
unfolding code_end
code_end-found zero bs h = absurd (omega arith)
code_end-found (suc zero) bs h = absurd (omega arith)
code_end-found (suc (suc zero)) bs h = refl
code_end-found (suc (suc (suc z))) bs h =
    rw (code_end-found (suc (suc z)) bs (omega arith)) (ap some (omega arith))

replicate-zero : (z : ℕ) (bs : List ℕ) → replicate z 0 ++ (0 ∷ bs) ≡ 0 ∷ (replicate z 0 ++ bs)
replicate-zero zero bs = refl
replicate-zero (suc z) bs = ap (λ l. 0 ∷ l) (replicate-zero z bs)

get_elem?-zeros : (z b : ℕ) (bs : List ℕ) → get_elem? (replicate z 0 ++ (b ∷ bs)) z ≡ some b
get_elem?-zeros zero b bs = refl
get_elem?-zeros (suc z) b bs = get_elem?-zeros z b bs

-- A byte of the buffer, from what the buffer has from some place on.
load-middle :
    (buf : List ℕ) (base z place b : ℕ) (bs : List ℕ)
    → drop base buf ≡ replicate z 0 ++ (b ∷ bs)
    → place ≡ base + z
    → (load buf place ≡ ok b) × (place < length buf)
load-middle buf base z place b bs d e =
    let here : get_elem? buf place ≡ some b =
      sym (get_elem?-drop base z place buf e)
      ∙ ap (λ l. get_elem? l z) d
      ∙ get_elem?-zeros z b bs in
    (rw here refl, lt_of_get_elem? buf place here)

-- What the search from `base` on answers: -1 when there is no start code, and else the place behind
-- the first one, which ends a run of zeros and a one of the length that is answered too.
unfoldable pub IsAnswer : List ℕ → ℕ → ℕ → Result (ℕ × ℕ) → Option ℕ → Type 0
IsAnswer buf base start_len r none = r ≡ ok (not_found, start_len)
IsAnswer buf base start_len r (some n) =
    (place : ℕ) × (run : ℕ) × (rest : List ℕ) × (2 ≤ run)
    × (place + run + 1 ≡ base + n)
    × (drop place buf ≡ replicate run 0 ++ (1 ∷ rest))
    × (r ≡ ok (base + n, run + 1))

IsAnswer-shift :
    (buf : List ℕ) (base next k start_len : ℕ) (r : Result (ℕ × ℕ)) (o : Option ℕ)
    → next ≡ base + k
    → IsAnswer buf next start_len r o
    → IsAnswer buf base start_len r (shift k o)
unfolding IsAnswer
IsAnswer-shift buf base next k start_len r none e a = a
IsAnswer-shift buf base next k start_len r (some n) e (place, run, rest, h, p, d, q) =
    (place, run, rest, h, omega arith, d, q ∙ ap (λ x. ok (x, run + 1)) (omega arith))

drop-zeros : (z b : ℕ) (bs : List ℕ) → drop (suc z) (replicate z 0 ++ (b ∷ bs)) ≡ bs
drop-zeros zero b bs = refl
drop-zeros (suc z) b bs = drop-zeros z b bs

starts-end : (z : ℕ) → starts (replicate z 0 ++ []) ≡ false
starts-end zero = refl
starts-end (suc zero) = refl
starts-end (suc (suc zero)) = refl
starts-end (suc (suc (suc z))) = refl

code_end-end : (z : ℕ) → code_end (replicate z 0 ++ []) ≡ none
unfolding code_end
code_end-end zero = refl
code_end-end (suc z) = rw (starts-end (suc z), code_end-end z) refl

-- One round in front of the end of the buffer.
module _ (fuel : ℕ) (buf : List ℕ) (offset start_len z pos place b : ℕ) where
  frame_loop_round :
      u32 (offset + pos) ≡ place
      → place < length buf
      → load buf place ≡ ok b
      → frame_loop (suc fuel) buf offset (length buf) start_len z pos
        ≡ frame_step b z place
            (frame_loop fuel buf offset (length buf) start_len (count b z) (u32 (pos + 1)))
  unfolding frame_loop
  frame_loop_round e h l = rw (e, lt→ltb place (length buf) h, l) refl

frame_step_on :
    (b z place : ℕ) (rest : Result (ℕ × ℕ))
    → (leb 2 z && (b == 1)) ≡ false
    → frame_step b z place rest ≡ rest
unfolding frame_step
frame_step_on b z place rest h = rw h refl

frame_step_found :
    (b z place : ℕ) (rest : Result (ℕ × ℕ))
    → (leb 2 z && (b == 1)) ≡ true
    → frame_step b z place rest ≡ ok (u32 (place + 1), u8 (z + 1))
unfolding frame_step
frame_step_found b z place rest h = rw h refl

frame_loop-IsAnswer :
    (xs : List ℕ) (buf : List ℕ) (fuel offset start_len base z pos : ℕ)
    → length buf < 2 ^ 32
    → length xs < fuel
    → z < 255
    → IsShort z xs
    → offset + pos ≡ base + z
    → base + z ≤ length buf
    → drop base buf ≡ replicate z 0 ++ xs
    → IsAnswer buf base start_len
        (frame_loop fuel buf offset (length buf) start_len z pos)
        (code_end (replicate z 0 ++ xs))
unfolding IsShort
frame_loop-IsAnswer xs buf zero offset start_len base z pos small f hz s e inside d =
    absurd (omega arith)
frame_loop-IsAnswer [] buf (suc fuel) offset start_len base z pos small f hz s e inside d =
    let l1 = ap (length {A = ℕ}) d in
    let l2 = length-append {0} {A = ℕ} (replicate z 0) [] in
    let l3 = length-replicate {0} {A = ℕ} z 0 in
    let l4 = length-drop base buf in
    let past : ltb (u32 (offset + pos)) (length buf) ≡ false = ground arith in
    rw (code_end-end z) (unfold IsAnswer frame_loop in rw past refl)
frame_loop-IsAnswer (b ∷ bs) buf (suc fuel) offset start_len base z pos small f hz s e inside d =
    let place : u32 (offset + pos) ≡ base + z = omega arith in
    let (here, before) = load-middle buf base z (base + z) b bs d refl in
    let turn = frame_loop_round fuel buf offset start_len z pos (base + z) b place before here in
    elim (Bool-cases (b == 0)) [
      | inl q ↦
          let eb : b ≡ 0 = (==_iff b 0).0 q in
          let more : (leb 2 z && (b == 1)) ≡ false = ground arith in
          let (low, s') : (suc z < 255) × IsShort (suc z) bs = rw q at s in
          let zs : replicate z 0 ++ (b ∷ bs) ≡ replicate (suc z) 0 ++ bs =
            rw eb (replicate-zero z bs) in
          let counted : count b z ≡ suc z = rw q (omega arith) in
          let rest =
            frame_loop-IsAnswer bs buf fuel offset start_len base (suc z) (u32 (pos + 1)) small
              (omega arith) low s' (omega arith) (omega arith) (d ∙ zs) in
          rw
            (
              turn,
              frame_step_on b z (base + z)
                  (frame_loop fuel buf offset (length buf) start_len (count b z) (u32 (pos + 1)))
                  more,
              counted,
              zs,
            )
            rest
      | inr q ↦ elim (Bool-cases (leb 2 z && (b == 1))) [
        | inl found ↦
            let one : b ≡ 1 = ground arith in
            let many : 2 ≤ z = ground arith in
            let whole : code_end (replicate z 0 ++ (b ∷ bs)) ≡ some (z + 1) =
              rw one (code_end-found z bs many) in
            rw
              (
                turn,
                frame_step_found b z (base + z)
                    (frame_loop fuel buf offset (length buf) start_len (count b z) (u32 (pos + 1)))
                    found,
                whole,
              )
              (unfold IsAnswer in
                (base, z, bs, many, omega arith, rw one at d, ap ok (ground arith)))
        | inr more ↦
            let counted : count b z ≡ 0 = rw q refl in
            let other : b ≢ 0 = λ e. ground arith in
            let s' : IsShort 0 bs = rw q at s in
            let after : drop (base + suc z) buf ≡ bs =
              sym (drop-drop base (suc z) (base + suc z) buf refl)
              ∙ ap (drop (suc z)) d
              ∙ drop-zeros z b bs in
            let rest =
              frame_loop-IsAnswer bs buf fuel offset start_len (base + suc z) 0 (u32 (pos + 1))
                small (omega arith) (omega arith) s' (omega arith) (omega arith) after in
            rw
              (
                turn,
                frame_step_on b z (base + z)
                    (frame_loop fuel buf offset (length buf) start_len (count b z) (u32 (pos + 1)))
                    more,
                counted,
                code_end-zeros z b bs other more,
              )
              (IsAnswer-shift buf base (base + suc z) (suc z) start_len _ (code_end bs) refl rest)
      ]
    ]

-- From any offset in a buffer below 2 ^ 32 bytes whose runs of zeros, from there on, are not longer
-- than 254, `get_next_frame_start` finds the end of the first start code and its length, or answers
-- -1 when there is none; it ends, and makes no access out of bounds.
pub get_next_frame_start-IsAnswer :
    (buf : List ℕ) (offset start_len : ℕ)
    → length buf < 2 ^ 32
    → offset ≤ length buf
    → IsShort 0 (drop offset buf)
    → IsAnswer buf offset start_len
        (get_next_frame_start buf offset (length buf) start_len)
        (code_end (drop offset buf))
unfolding get_next_frame_start
get_next_frame_start-IsAnswer buf offset start_len small inside s =
    frame_loop-IsAnswer (drop offset buf) buf (suc (length buf)) offset start_len offset 0 0 small
      (omega (arith, length-drop offset buf)) (omega arith) s refl (omega arith) refl
