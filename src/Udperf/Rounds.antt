-- ===== src/Udperf/Rounds.antt =====
-- What the server of udperf.cc counts, and what the client works out from it.
use rtp_benchmarks.Common.{
  ℕ, zero, suc, ◌+◌, ◌*◌, ◌/◌, ◌^◌, ◌≤◌, ◌<◌, ◌≡◌, refl, sym, ap, ◌∙◌, true, false, List, [], ◌∷◌,
  ◌++◌, map, Option, none, some, ok, ◌>>=◌, arith, All, length, ◌==◌, Bool-cases, inl, inr,
}
use rtp_benchmarks.Udperf.{
  max_rounds, max_pkts, to_int, receive_round, receive_rounds, server, round_bytes, client_round,
  client_rounds,
}

-- How many packets `recv` gives behind the answers, and how often `select` times out.
abbrev pub packets : List (Option ℕ) → ℕ
packets [] = 0
packets (none ∷ answers) = packets answers
packets (some k ∷ answers) = k + packets answers

abbrev pub timeouts : List (Option ℕ) → ℕ
timeouts [] = 0
timeouts (none ∷ answers) = suc (timeouts answers)
timeouts (some k ∷ answers) = timeouts answers

abbrev pub sum : List ℕ → ℕ
sum [] = 0
sum (n ∷ ns) = n + sum ns

to_int_ok : (n : ℕ) → n < 2 ^ 31 → to_int n ≡ ok n
unfolding to_int
to_int_ok n h = ground arith

-- A round counts the packets of the answers that it takes, and takes at most one that times out.
abbrev IsCounting : List (Option ℕ) → ℕ → Type 0
IsCounting answers npkts =
    (n : ℕ) × (left : List (Option ℕ)) × (receive_round answers npkts ≡ ok (n, left))
    × (n + packets left ≡ npkts + packets answers)
    × (timeouts answers ≤ suc (timeouts left))

receive_round-IsCounting :
    (answers : List (Option ℕ)) (npkts : ℕ)
    → 1 ≤ timeouts answers
    → npkts + packets answers < 2 ^ 31
    → IsCounting answers npkts
unfolding receive_round
receive_round-IsCounting [] npkts t h = absurd (omega arith)
receive_round-IsCounting (none ∷ answers) npkts t h = elim (Bool-cases (npkts == max_pkts)) [
  | inl e ↦ (npkts, none ∷ answers, rw e refl, omega arith, omega arith)
  | inr e ↦ (npkts, answers, rw e refl, omega arith, omega arith)
]
receive_round-IsCounting (some k ∷ answers) npkts t h = elim (Bool-cases (npkts == max_pkts)) [
  | inl e ↦ (npkts, some k ∷ answers, rw e refl, omega arith, omega arith)
  | inr e ↦
      let (n, left, runs, counts, times) =
        receive_round-IsCounting answers (npkts + k) t (omega arith) in
      (n, left, rw (e, to_int_ok (npkts + k) (omega arith)) runs, omega arith, omega arith)
]

receive_rounds-sum :
    (n : ℕ) (answers : List (Option ℕ))
    → n ≤ timeouts answers
    → packets answers < 2 ^ 31
    → (sent : List ℕ) × (left : List (Option ℕ)) × (receive_rounds n answers ≡ ok (sent, left))
      × (length sent ≡ n)
      × (sum sent + packets left ≡ packets answers)
unfolding receive_rounds
receive_rounds-sum zero answers t h = ([], answers, refl, refl, omega arith)
receive_rounds-sum (suc n) answers t h =
    let (k, left, runs, counts, times) =
      receive_round-IsCounting answers 0 (omega arith) (omega arith) in
    let (sent, last, more, size, total) = receive_rounds-sum n left (omega arith) (omega arith) in
    (k ∷ sent, last, rw (runs, more) refl, omega arith, omega arith)

-- When `select` times out in at least ten of the answers and fewer than 2 ^ 31 packets come, the
-- server ends, sends a number back for each of its ten rounds, and these add up to the packets that
-- it has taken: none of them is lost between two rounds or counted in both.
pub server-sum :
    (answers : List (Option ℕ))
    → max_rounds ≤ timeouts answers
    → packets answers < 2 ^ 31
    → (sent : List ℕ) × (left : List (Option ℕ)) × (receive_rounds max_rounds answers
        ≡ ok (sent, left))
      × (server answers ≡ ok sent)
      × (length sent ≡ max_rounds)
      × (sum sent + packets left ≡ packets answers)
unfolding server
server-sum answers t h =
    let (sent, left, runs, size, total) = receive_rounds-sum max_rounds answers t h in
    (sent, left, runs, rw runs refl, size, total)

-- A round on answers that give the rest of the packets of the client, none of them in vain.
receive_round-full :
    (ks : List ℕ) (npkts : ℕ) (rest : List (Option ℕ))
    → All (λ k. 1 ≤ k) ks
    → npkts + sum ks ≡ max_pkts
    → receive_round (map some ks ++ rest) npkts ≡ ok (max_pkts, rest)
unfolding receive_round
receive_round-full [] npkts [] a h =
    let e : (npkts == max_pkts) ≡ true = ground arith in rw e (ap (λ n. ok (n, [])) (omega arith))
receive_round-full [] npkts (none ∷ rest) a h =
    let e : (npkts == max_pkts) ≡ true = ground arith in
    rw e (ap (λ n. ok (n, none ∷ rest)) (omega arith))
receive_round-full [] npkts (some k ∷ rest) a h =
    let e : (npkts == max_pkts) ≡ true = ground arith in
    rw e (ap (λ n. ok (n, some k ∷ rest)) (omega arith))
receive_round-full (k ∷ ks) npkts rest (h1, a) h =
    let e : (npkts == max_pkts) ≡ false = ground arith in
    rw (e, to_int_ok (npkts + k) (omega arith))
      (receive_round-full ks (npkts + k) rest a (omega arith))

-- The answers of one round after the other.
abbrev pub all_answers : List (List ℕ) → List (Option ℕ)
all_answers [] = []
all_answers (ks ∷ rounds) = map some ks ++ all_answers rounds

abbrev pub IsFull : List ℕ → Type 0
IsFull ks = All (λ k. 1 ≤ k) ks × (sum ks ≡ max_pkts)

abbrev pub repeat {ℓ} : {A : Type ℓ} → ℕ → A → List A
repeat zero a = []
repeat (suc n) a = a ∷ repeat n a

receive_rounds-full :
    (rounds : List (List ℕ))
    → All IsFull rounds
    → receive_rounds (length rounds) (all_answers rounds) ≡ ok (repeat (length rounds) max_pkts, [])
unfolding receive_rounds
receive_rounds-full [] a = refl
receive_rounds-full (ks ∷ rounds) ((h, e), a) =
    rw (receive_round-full ks 0 (all_answers rounds) h (omega arith), receive_rounds-full rounds a)
      refl

client_rounds-lines :
    (packet_size n k : ℕ)
    → packet_size ≤ 6135
    → client_rounds packet_size (repeat n k)
      ≡ ok (repeat n (max_pkts * packet_size / 1000 / 1000, k))
unfolding client_rounds client_round round_bytes
client_rounds-lines packet_size zero k h = refl
client_rounds-lines packet_size (suc n) k h =
    rw (to_int_ok (max_pkts * packet_size) (omega arith), client_rounds-lines packet_size n k h)
      refl

-- When the packets of each of ten rounds all arrive, in whatever portions, and none has more than
-- 6135 bytes, the server ends each round without a timeout, and the client then prints ten times
-- that all packets were received and how many megabytes they are.
pub client_rounds-server :
    (rounds : List (List ℕ)) (packet_size : ℕ)
    → length rounds ≡ max_rounds
    → All IsFull rounds
    → packet_size ≤ 6135
    → (server (all_answers rounds) >>= client_rounds packet_size)
      ≡ ok (repeat max_rounds (max_pkts * packet_size / 1000 / 1000, max_pkts))
unfolding server
client_rounds-server rounds packet_size l a h =
    let full : receive_rounds max_rounds (all_answers rounds)
        ≡ ok (repeat max_rounds max_pkts, []) =
      ap (λ n. receive_rounds n (all_answers rounds)) (sym l)
      ∙ receive_rounds-full rounds a
      ∙ ap (λ n. ok (repeat n max_pkts, [])) l in
    rw full (client_rounds-lines packet_size max_rounds max_pkts h)
