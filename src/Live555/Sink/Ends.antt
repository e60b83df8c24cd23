-- ===== src/Live555/Sink/Ends.antt =====
-- How the programs around live555/sink.cc end.
use rtp_benchmarks.Common.{
  ℕ, zero, suc, ◌+◌, ◌-◌, ◌^◌, ◌≤◌, ◌<◌, ◌≡◌, refl, ap, ◌∙◌, Bool, true, false, List, [], ◌∷◌,
  Option, none, some, arith, All, length, ◌==◌, if◌then◌else◌, Bool-cases, inl, inr, ◌⊎◌, ltb, u32,
  u64,
}
use rtp_benchmarks.Live555.Sink.{
  watch_loop, thread_func, SinkState, playing, exit_success, after_getting_frame,
  after_getting_frames,
}

-- Readings of a number that never goes down.
abbrev pub IsRising : ℕ → List ℕ → Type 0
IsRising low [] = low ≤ low
IsRising low (r ∷ rs) = (low ≤ r) × IsRising r rs

-- The first reading that is that of the sleep before.
abbrev pub first_repeat : ℕ → List ℕ → Option ℕ
first_repeat prev [] = none
first_repeat prev (r ∷ rs) = if prev == r then some r else first_repeat r rs

abbrev pub is_some : Option ℕ → Bool
is_some none = false
is_some (some n) = true

watch_loop-first_repeat :
    (rs : List ℕ) (prev : ℕ) → All (λ r. r < 2 ^ 32) rs → watch_loop rs prev ≡ first_repeat prev rs
unfolding watch_loop
watch_loop-first_repeat [] prev a = refl
watch_loop-first_repeat (r ∷ rs) prev (h, a) =
    let same : u32 r ≡ r = omega arith in rw (same, watch_loop-first_repeat rs r a) refl

-- Rising readings below a bound repeat, when there are enough of them.
first_repeat-is_some :
    (rs : List ℕ) (prev bound : ℕ)
    → IsRising prev rs
    → All (λ r. r ≤ bound) rs
    → prev ≤ bound
    → bound < prev + length rs
    → is_some (first_repeat prev rs) ≡ true
first_repeat-is_some [] prev bound up a h l = absurd (omega arith)
first_repeat-is_some (r ∷ rs) prev bound (lo, up) (hi, a) h l = elim (Bool-cases (prev == r)) [
  | inl e ↦ rw e refl
  | inr e ↦ rw e (first_repeat-is_some rs r bound up a hi (ground arith))
]

-- The thread never ends with its first reading: it compares each later one with the one before, and
-- when the number of frames never goes down and stays below 601, where the sink would end the
-- program, it ends it after at most 602 sleeps.
pub thread_func-ends :
    (r : ℕ) (rs : List ℕ)
    → IsRising r rs
    → All (λ n. n < 601) (r ∷ rs)
    → (thread_func (r ∷ rs) ≡ first_repeat r rs)
      × ((length rs < 601) ⊎ (is_some (thread_func (r ∷ rs)) ≡ true))
unfolding thread_func watch_loop
thread_func-ends r rs up (h, a) =
    let same : u32 r ≡ r = omega arith in
    let differs : (2 ^ 32 - 1 == r) ≡ false = ground arith in
    let runs : thread_func (r ∷ rs) ≡ first_repeat r rs =
      rw (same, differs) (watch_loop-first_repeat rs r (small rs a)) in
    (
      runs,
      elim (Bool-cases (ltb (length rs) 601)) [
        | inl e ↦ inl (ground arith)
        | inr e ↦ inr (
            ap is_some runs
            ∙ first_repeat-is_some rs r 600 up (below rs a) (omega arith) (ground arith))
      ],
    )
  where
    small : (ns : List ℕ) → All (λ n. n < 601) ns → All (λ n. n < 2 ^ 32) ns
    small [] b = record {}
    small (n ∷ ns) (k, b) = (omega arith, small ns b)

    below : (ns : List ℕ) → All (λ n. n < 601) ns → All (λ n. n ≤ 600) ns
    below [] b = record {}
    below (n ∷ ns) (k, b) = (omega arith, below ns b)

-- From a first frame on, no further thread is started, and the frame number 601 ends the program.
frames_lem :
    (n f : ℕ)
    → 1 ≤ f
    → f + n ≤ 600
    → after_getting_frames n (record { frames = f; threads = 1 })
      ≡ playing (record { frames = f + n; threads = 1 })
unfolding after_getting_frames after_getting_frame
frames_lem zero f lo h = let e : f + 0 ≡ f = omega arith in rw e refl
frames_lem (suc n) f lo h =
    let none_new : (f == 0) ≡ false = ground arith in
    let count : u64 (f + 1) ≡ f + 1 = omega arith in
    let going : (f + 1 == 601) ≡ false = ground arith in
    let e : f + suc n ≡ f + 1 + n = omega arith in
    rw (none_new, count, going, e) (frames_lem n (f + 1) (omega arith) (omega arith))

exit_lem :
    (n m f : ℕ)
    → 1 ≤ f
    → f + n ≡ 600
    → after_getting_frames (n + suc m) (record { frames = f; threads = 1 })
      ≡ exit_success (record { frames = 601; threads = 1 })
unfolding after_getting_frames after_getting_frame
exit_lem zero m f lo h =
    let e : 0 + suc m ≡ suc m = omega arith in let f' : f ≡ 600 = omega arith in rw (e, f') refl
exit_lem (suc n) m f lo h =
    let none_new : (f == 0) ≡ false = ground arith in
    let count : u64 (f + 1) ≡ f + 1 = omega arith in
    let going : (f + 1 == 601) ≡ false = ground arith in
    let e : suc n + suc m ≡ suc (n + suc m) = omega arith in
    rw (e, none_new, count, going) (exit_lem n m (f + 1) (omega arith) (omega arith))

abbrev pub fresh : SinkState
fresh = record { frames = 0; threads = 0 }

-- With at least one and fewer than 601 frames the program goes on, has counted each of them and has
-- started one thread; with 601 frames or more it has ended with success at the frame number 601.
pub after_getting_frames_lem :
    (n m : ℕ)
    → n < 600
    → (after_getting_frames (suc n) fresh ≡ playing (record { frames = suc n; threads = 1 }))
      × (after_getting_frames (601 + m) fresh ≡ exit_success (record { frames = 601; threads = 1 }))
unfolding after_getting_frames after_getting_frame
after_getting_frames_lem n m h = (
  frames_lem n 1 (omega arith) (omega arith)
      ∙ ap (λ k. playing (record { frames = k; threads = 1 })) (omega arith),
  exits,
)
  where
    exits :
        after_getting_frames (601 + m) fresh ≡ exit_success (record { frames = 601; threads = 1 })
    exits =
        let e : 601 + m ≡ suc (599 + suc m) = omega arith in
        ap (λ k. after_getting_frames k fresh) e ∙ exit_lem 599 m 1 (omega arith) (omega arith)
