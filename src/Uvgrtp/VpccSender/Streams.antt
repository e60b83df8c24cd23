-- ===== src/Uvgrtp/VpccSender/Streams.antt =====
-- `main` of uvgrtp/vpcc_sender.cc from `get_mem` on: the file is searched for its units, and one
-- thread for each of four types sends its part of them. The threads share nothing that one of them
-- writes, so each runs on its own here; what the clock shows to each is an argument. The session, the
-- keys and the two waits before the start are left out.
use rtp_benchmarks.Common.{
  ℕ, ◌+◌, ◌-◌, ◌^◌, List, Option, none, some, Result, ok, ◌>>=◌, length, u64, add64,
}
use rtp_benchmarks.V3c.Types.{V3cFileMap, empty_file_map, v3c_ad, v3c_ovd, v3c_gvd, v3c_avd}
use rtp_benchmarks.V3c.Mmap.{mmap_v3c_file}
use rtp_benchmarks.Uvgrtp.Sender.{Event}
use rtp_benchmarks.Uvgrtp.VpccReceiver.{find_earliest_time_point, find_latest_time_point}
use rtp_benchmarks.Uvgrtp.VpccSender.{sender_func}

-- What the clock shows to a thread: when it has sent so many bytes, and before and behind its loops.
pub record Clock : Type 0 where
  pub now : ℕ → ℕ
  pub start : ℕ
  pub end : ℕ

-- The clocks of the four threads.
pub record Clocks : Type 0 where
  pub ad_clock : Clock
  pub ovd_clock : Clock
  pub gvd_clock : Clock
  pub avd_clock : Clock

-- What the four threads have sent, and what `write_send_results_to_file` is given.
pub record Sent : Type 0 where
  pub ad_events : List Event
  pub ovd_events : List Event
  pub gvd_events : List Event
  pub avd_events : List Event
  pub total_bytes_sent : ℕ
  pub diff : ℕ

-- The difference of the time points, as a `uint64_t`.
unfoldable pub time_diff : Clocks → ℕ
time_diff c =
    let start =
      find_earliest_time_point c.ad_clock.start c.ovd_clock.start c.gvd_clock.start
        c.avd_clock.start in
    let end =
      find_latest_time_point c.ad_clock.end c.ovd_clock.end c.gvd_clock.end c.avd_clock.end in
    u64 (end + 2 ^ 64 - start)

unfoldable pub send_streams : List ℕ → Clocks → ℕ → V3cFileMap → Result Sent
send_streams cbuf c period m = do
  (ad, ad_bytes) ← sender_func cbuf v3c_ad c.ad_clock.now period m.ad_units
  (ovd, ovd_bytes) ← sender_func cbuf v3c_ovd c.ovd_clock.now period m.ovd_units
  (gvd, gvd_bytes) ← sender_func cbuf v3c_gvd c.gvd_clock.now period m.gvd_units
  (avd, avd_bytes) ← sender_func cbuf v3c_avd c.avd_clock.now period m.avd_units
  ok (record {
    ad_events = ad;
    ovd_events = ovd;
    gvd_events = gvd;
    avd_events = avd;
    total_bytes_sent = add64 (add64 (add64 ad_bytes ovd_bytes) gvd_bytes) avd_bytes;
    diff = time_diff c;
  })

-- The exit code, and the results; `none` is a file that `get_mem` cannot give. Whether the file could
-- be parsed is not looked at.
unfoldable pub main : Option (List ℕ) → Clocks → ℕ → Result (ℕ × Option Sent)
main none c period = ok (1, none)
main (some mem) c period = do
  (parsed, m) ← mmap_v3c_file mem (length mem) empty_file_map
  sent ← send_streams mem c period m
  ok (0, some sent)
