-- ===== src/Uvgrtp/LatencySender/Counts.antt =====
-- The counters of uvgrtp/latency_sender.cc agree with each other.
use rtp_benchmarks.Common.{
  ℕ, ◌+◌, ◌≤◌, ◌≡◌, List, [], ◌∷◌, ◌++◌, Option, none, some, Result, ok, length, u64,
}
use rtp_benchmarks.Uvgrtp.LatencySender.{Latencies, Format, vvc, atlas, hevc, Arrival}

-- The sums over both kinds are the sums of the two, no kind has a time without a count, and no
-- frame is counted that was not received.
pub record IsConsistent (s : Latencies) : Type 0 where
  pub frames_sum : s.frames ≡ u64 (s.nintras + s.ninters)
  pub total_sum : s.total ≡ u64 (s.total_intra + s.total_inter)
  pub seen : s.frames + s.n_non_vcl ≤ s.total_frames_received
  pub logged : length s.recv_times ≡ length s.diff_times
  pub kinds : length s.intra_recv + length s.inter_recv ≤ length s.recv_times

abbrev received : Latencies → Latencies
received t = record t { total_frames_received = t.total_frames_received + 1 }

-- A null pointer, or a payload long enough for the byte that is read in each format.
abbrev pub IsReadable : Option (List ℕ) → Type 0
IsReadable none = 0 ≤ 0
IsReadable (some payload) = 5 ≤ length payload

abbrev pub is_frame : Option (List ℕ) → ℕ
is_frame none = 0
is_frame (some payload) = 1

abbrev pub arrived : List Arrival → ℕ
arrived [] = 0
arrived (a ∷ rest) = is_frame a.payload + arrived rest

-- The time at which an atlas frame has come back, for each that is received.
abbrev time_of : Format → Option (List ℕ) → ℕ → List ℕ
time_of atlas (some payload) time = time ∷ []
time_of atlas none time = []
time_of vvc p time = []
time_of hevc p time = []

abbrev pub atlas_times : Format → List Arrival → List ℕ
atlas_times format [] = []
atlas_times format (a ∷ rest) = time_of format a.payload a.last_time ++ atlas_times format rest

abbrev IsNext : ℕ → List ℕ → Latencies → Result Latencies → Type 0
IsNext n times s r =
    (t : Latencies) × (r ≡ ok t)
    × (IsConsistent t)
    × (t.total_frames_received ≡ s.total_frames_received + n)
    × (t.recv_times ≡ s.recv_times ++ times)
