-- ===== src/Udperf.antt =====
-- udperf.cc: the rounds of the server and the client, and the choice of them. What `select` and `recv`
-- find, `getopt`, `atoi` and the results of the two ends for `main` are arguments. The sockets are left
-- out, and what is printed in floating point. A packet size is not negative here: an array of a
-- negative size has no meaning.
pub mod Rounds
pub mod Options
use rtp_benchmarks.Common.{
  ℕ, zero, suc, ◌+◌, ◌*◌, ◌/◌, ◌^◌, Bool, true, false, not, ◌&&◌, List, [], ◌∷◌, Option, none, some,
  Result, ok, err, Fault, ◌>>=◌, length, ltb, ◌==◌, if◌then◌else◌, u16,
}

abbrev pub max_rounds : ℕ
max_rounds = 10

abbrev pub max_pkts : ℕ
max_pkts = 350000

-- A value of type `int`, whose overflow is undefined.
unfoldable pub to_int : ℕ → Result ℕ
to_int n = if ltb n (2 ^ 31) then ok n else err Fault.bad_access

-- One round of the server on the answers that are to come: `none` is a `select` that times out, and
-- `some k` one behind which `recv` gives `k` packets. It gives `npkts` and the answers that are left;
-- without a further answer `select` would not return.
unfoldable pub receive_round : List (Option ℕ) → ℕ → Result (ℕ × List (Option ℕ))
receive_round [] npkts = if npkts == max_pkts then ok (npkts, []) else err Fault.out_of_fuel
receive_round (none ∷ answers) npkts =
    if npkts == max_pkts then ok (npkts, none ∷ answers) else ok (npkts, answers)
receive_round (some k ∷ answers) npkts =
    let next = to_int (npkts + k) >>= receive_round answers in
    if npkts == max_pkts then ok (npkts, some k ∷ answers) else next

-- The numbers that the server sends back, one for each of `n` rounds, and the answers left.
unfoldable pub receive_rounds : ℕ → List (Option ℕ) → Result (List ℕ × List (Option ℕ))
receive_rounds zero answers = ok ([], answers)
receive_rounds (suc n) answers = do
  (npkts, left) ← receive_round answers 0
  (sent, last) ← receive_rounds n left
  ok (npkts ∷ sent, last)

unfoldable pub server : List (Option ℕ) → Result (List ℕ)
server answers = receive_rounds max_rounds answers >>= (λ (sent, left). ok sent)

-- `bytes` of a round of the client.
unfoldable pub round_bytes : ℕ → Result ℕ
round_bytes packet_size = to_int (max_pkts * packet_size)

-- The line that is printed for a round: the megabytes and the packets that the server has counted.
unfoldable pub client_round : ℕ → ℕ → Result (ℕ × ℕ)
client_round packet_size pkts = do bytes ← round_bytes packet_size; ok (bytes / 1000 / 1000, pkts)

-- The rounds of the client, on what the server sends back.
unfoldable pub client_rounds : ℕ → List ℕ → Result (List (ℕ × ℕ))
client_rounds packet_size [] = ok []
client_rounds packet_size (pkts ∷ rest) = do
  line ← client_round packet_size pkts
  lines ← client_rounds packet_size rest
  ok (line ∷ lines)

-- The locals of `main`; a string is the list of its characters.
pub record Settings : Type 0 where
  pub address : List ℕ
  pub port : ℕ
  pub run_client : Bool
  pub run_server : Bool
  pub packet_size : ℕ

abbrev pub no_settings : Settings
no_settings = record {
  address = [];
  port = 0;
  run_client = false;
  run_server = false;
  packet_size = 0;
}

-- The `switch` on 'c', 's', 'p' and 'i'; on any other character `main` returns.
unfoldable pub read_option : (List ℕ → ℕ) → ℕ → List ℕ → Settings → Option Settings
read_option atoi c optarg s =
    if c == 99
    then some (record s { address = optarg; run_client = true })
    else if c == 115
    then some (record s { address = optarg; run_server = true })
    else if c == 112
    then some (record s { port = u16 (atoi optarg) })
    else if c == 105
    then some (record s { packet_size = atoi optarg })
    else none

unfoldable pub read_options : (List ℕ → ℕ) → List (ℕ × List ℕ) → Settings → Option Settings
read_options atoi [] s = some s
read_options atoi ((c, optarg) ∷ rest) s =
    on_read (read_option atoi c optarg s) (λ t. read_options atoi rest t)
  where
    on_read : Option Settings → (Settings → Option Settings) → Option Settings
    on_read none next = none
    on_read (some t) next = next t

-- What `main` calls.
pub data Call : Type 0 where
  call_server call_client : List ℕ → ℕ → ℕ → Call

-- The calls, and the exit code, when the server answers `from_server` and the client `from_client`.
unfoldable pub run_ends : ℕ → ℕ → Settings → List Call × ℕ
run_ends from_server from_client s =
    let one = call_server s.address s.port s.packet_size in
    let two = call_client s.address s.port s.packet_size in
    if s.run_client
    then (if length s.address == 0
        then ((if s.run_server then one ∷ [] else []), 1)
        else ((if s.run_server then one ∷ two ∷ [] else two ∷ []), from_client))
    else (if s.run_server then (one ∷ [], from_server) else ([], 1))

-- The options, and then the ends; 1 is EXIT_FAILURE.
unfoldable pub main : (List ℕ → ℕ) → ℕ → ℕ → List (ℕ × List ℕ) → List Call × ℕ
main atoi from_server from_client options = on_settings (read_options atoi options no_settings)
  where
    on_settings : Option Settings → List Call × ℕ
    on_settings none = ([], 1)
    on_settings (some s) = run_ends from_server from_client s
