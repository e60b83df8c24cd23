-- ===== src/Util/Names.antt =====
-- The functions of util/util.cc on names: `get_chunk_filename` and the `get_*_state` functions, on
-- strings as the lists of their bytes.
use rtp_benchmarks.Common.{
  ℕ, suc, ◌+◌, ◌≡◌, ◌≢◌, refl, ap, ◌∙◌, Bool, true, false, ◌||◌, ◌&&◌, List, [], ◌∷◌, ◌++◌, Option,
  none, some, arith, All, length, take, drop, sym, drop-drop, drop-append_left, take-append_left,
  ◌==◌, if◌then◌else◌,
}

-- `'.'` and `'m'`.
abbrev pub dot : ℕ
dot = 46

abbrev pub letter_m : ℕ
letter_m = 109

-- `find_last_of(".")`.
pub find_last_dot : List ℕ → Option ℕ
find_last_dot [] = none
find_last_dot (c ∷ cs) = elim (find_last_dot cs) [
  | some i ↦ some (suc i)
  | none ↦ if c == dot then some 0 else none
]

-- `mem_file + ".m" + ending`, where both are empty when there is no dot.
chunk_name : List ℕ → Option ℕ → List ℕ
chunk_name name none = dot ∷ letter_m ∷ []
chunk_name name (some i) = take i name ++ (dot ∷ letter_m ∷ drop (i + 1) name)

pub get_chunk_filename : List ℕ → List ℕ
get_chunk_filename name = chunk_name name (find_last_dot name)

find_last_dot-none : (cs : List ℕ) → All (λ c. c ≢ dot) cs → find_last_dot cs ≡ none
unfolding find_last_dot
find_last_dot-none [] a = refl
find_last_dot-none (c ∷ cs) (h, a) = rw (find_last_dot-none cs a) (ground arith)

find_last_dot-some :
    (mem ending : List ℕ)
    → All (λ c. c ≢ dot) ending
    → find_last_dot (mem ++ (dot ∷ ending)) ≡ some (length mem)
unfolding find_last_dot
find_last_dot-some [] ending a = rw (find_last_dot-none ending a) refl
find_last_dot-some (c ∷ mem) ending a = rw (find_last_dot-some mem ending a) refl

-- A name with an extension gets an `m` in front of it, whatever dots the rest of the name has; of
-- a name without one only the dot and the `m` are left.
pub get_chunk_filename_lem :
    (mem ending : List ℕ)
    → All (λ c. c ≢ dot) ending
    → (get_chunk_filename (mem ++ (dot ∷ ending)) ≡ mem ++ (dot ∷ letter_m ∷ ending))
      × (get_chunk_filename ending ≡ dot ∷ letter_m ∷ [])
unfolding get_chunk_filename chunk_name
get_chunk_filename_lem mem ending a =
    let after : drop (length mem + 1) (mem ++ (dot ∷ ending)) ≡ ending =
      sym (drop-drop (length mem) 1 (length mem + 1) (mem ++ (dot ∷ ending)) refl)
      ∙ ap (drop 1) (drop-append_left mem (dot ∷ ending)) in
    (
      rw (find_last_dot-some mem ending a, take-append_left mem (dot ∷ ending), after) refl,
      rw (find_last_dot-none ending a) refl,
    )

-- Strings compared byte by byte.
abbrev pub same : List ℕ → List ℕ → Bool
same [] [] = true
same [] (d ∷ ds) = false
same (c ∷ cs) [] = false
same (c ∷ cs) (d ∷ ds) = (c == d) && same cs ds

-- "1", "yes", "y", "srtp".
pub get_srtp_state : List ℕ → Bool
get_srtp_state srtp =
    if same srtp (49 ∷ [])
      || same srtp (121 ∷ 101 ∷ 115 ∷ [])
      || same srtp (121 ∷ [])
      || same srtp (115 ∷ 114 ∷ 116 ∷ 112 ∷ [])
    then true
    else false

-- "vvc", "h266"; the other names only decide on a message.
pub get_vvc_state : List ℕ → Bool
get_vvc_state format =
    if same format (118 ∷ 118 ∷ 99 ∷ []) || same format (104 ∷ 50 ∷ 54 ∷ 54 ∷ [])
    then true
    else false

-- "atlas".
pub get_atlas_state : List ℕ → Bool
get_atlas_state format = if same format (97 ∷ 116 ∷ 108 ∷ 97 ∷ 115 ∷ []) then true else false
