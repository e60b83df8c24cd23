-- ===== src/Ffmpeg/LatencySender/Packets.antt =====
-- What `sender` of ffmpeg/latency_sender.cc writes when sizes repeat.
use rtp_benchmarks.Common.{
  ℕ, ◌+◌, ◌≡◌, List, ◌==◌, [], ◌∷◌, Result, ok, length, take, drop, if◌then◌else◌,
}
use rtp_benchmarks.Uvgrtp.Sender.{Event}
use rtp_benchmarks.Uvgrtp.Sender.Sends.{pushed}
use rtp_benchmarks.Ffmpeg.LatencySender.{PacketState, has_key}

-- The first occurrence of each size that is no key yet.
abbrev pub new_sizes : List ℕ → List ℕ → List ℕ
new_sizes keys [] = []
new_sizes keys (n ∷ ns) =
    if has_key n keys then new_sizes keys ns else (n ∷ new_sizes (n ∷ keys) ns)

-- The list without a number, and the first occurrence of each number.
abbrev pub without : ℕ → List ℕ → List ℕ
without n [] = []
without n (m ∷ ms) = if m == n then without n ms else m ∷ without n ms

abbrev pub firsts : List ℕ → List ℕ
firsts [] = []
firsts (n ∷ ns) = n ∷ without n (firsts ns)

abbrev fresh : List ℕ → List ℕ → List ℕ
fresh keys [] = []
fresh keys (m ∷ ms) = if has_key m keys then fresh keys ms else m ∷ fresh keys ms

abbrev pub sum_of : List ℕ → ℕ
sum_of [] = 0
sum_of (n ∷ ns) = n + sum_of ns

-- Pieces of the given sizes from an offset on, one behind the other.
abbrev pub pieces_at : List ℕ → ℕ → List ℕ → List (List ℕ)
pieces_at mem offset [] = []
pieces_at mem offset (n ∷ ns) = take n (drop offset mem) ∷ pieces_at mem (offset + n) ns

module _ (now runtime : ℕ → ℕ) (period : ℕ) (mem : List ℕ) where
  -- A run that writes the given pieces and notes a time for each.
  abbrev pub IsCut : List (List ℕ) → ℕ → Result (List Event × PacketState) → Type 0
  IsCut pieces times r =
      (events : List Event) × (t : PacketState) × (r ≡ ok (events, t))
      × (pushed events ≡ pieces)
      × (length t.timestamps2 ≡ times + length pieces)
