-- ===== src/Uvgrtp/LatencySender/Runs.antt =====
-- `sender` of uvgrtp/latency_sender.cc from `get_mem` to the end of its loops: the file is searched for
-- its units in the atlas format and its chunk sizes are read in the others. The session, the waits in
-- front of the loops and behind them, and the averages, which are computed in floating point, are left
-- out.
use rtp_benchmarks.Common.{
  ℕ, Bool, true, false, List, [], Option, none, some, Result, ok, ◌>>=◌, length, ◌==◌,
  if◌then◌else◌,
}
use rtp_benchmarks.V3c.Types.{V3cFileMap, empty_file_map}
use rtp_benchmarks.V3c.Mmap.{mmap_v3c_file}
use rtp_benchmarks.Uvgrtp.Sender.{Event}
use rtp_benchmarks.Uvgrtp.SenderMain.{bytes_at}
use rtp_benchmarks.Uvgrtp.LatencySender.{AtlasState, latency_chunks, latency_atlas_units}

abbrev pub first_atlas : AtlasState
first_atlas = record {
  frame_number = 0;
  send_times = [];
  inter_send = [];
  intra_send = [];
  after_send_times = [];
}

-- What is sent, with the exit code: a refused push ends in EXIT_FAILURE.
unfoldable pub exit_code {ℓ} : {S : Type ℓ} → List Event × S × Bool → ℕ × List Event
exit_code (events, s, true) = (0, events)
exit_code (events, s, false) = (1, events)

module _ (push : ℕ → Bool) (now after runtime : ℕ → ℕ) (period : ℕ) where
  -- The atlas format; the file is searched before `mem` is compared with null.
  unfoldable pub latency_atlas : Option (List ℕ) → Result (ℕ × List Event)
  latency_atlas mem =
      mmap_v3c_file (bytes_at mem) (length (bytes_at mem)) empty_file_map
      >>= (λ (parsed, m). send_mapped mem m)
    where
      send_mapped : Option (List ℕ) → V3cFileMap → Result (ℕ × List Event)
      send_mapped none m = ok (1, [])
      send_mapped (some cbuf) m =
          latency_atlas_units push now after runtime period cbuf m.ad_units first_atlas
          >>= (λ r. ok (exit_code r))

  -- The other formats.
  unfoldable pub latency_file : Option (List ℕ) → List ℕ → Result (ℕ × List Event)
  latency_file none chunk_sizes = ok (1, [])
  latency_file (some mem) chunk_sizes =
      let sent =
        latency_chunks push now after runtime period mem chunk_sizes
          (record { current_frame = 0; offset = 0 })
        >>= (λ r. ok (exit_code r)) in
      if length chunk_sizes == 0 then ok (1, []) else sent
