-- ===== src/Uvgrtp/VpccReceiver/Rounds.antt =====
-- The waiting loop of `main` of uvgrtp/vpcc_receiver.cc and the results behind it, for the calls of the
-- hook that come in each interval of the loop, from any of the four streams, each running to its end
-- before the next. The set-up of the streams is left out.
use rtp_benchmarks.Common.{
  ℕ, ◌+◌, ◌-◌, ◌^◌, Bool, true, false, List, [], ◌∷◌, Option, none, some, u64, add64,
}
use rtp_benchmarks.Uvgrtp.VpccReceiver.{
  StreamResults, no_results, Call, hook, find_earliest_time_point, find_latest_time_point,
}

-- The stream on which a frame comes.
pub data Origin : Type 0 where
  from_ad from_ovd from_gvd from_avd : Origin

pub record AllResults : Type 0 where
  pub ad_r : StreamResults
  pub ovd_r : StreamResults
  pub gvd_r : StreamResults
  pub avd_r : StreamResults

abbrev pub no_frames : AllResults
no_frames = record { ad_r = no_results; ovd_r = no_results; gvd_r = no_results; avd_r = no_results }

-- The hook with the results of its stream, and the flag.
unfoldable pub hook_on : Origin → Call → AllResults → Bool → AllResults × Bool
hook_on from_ad call r flag =
    let (s, flag') = hook call r.ad_r flag in (record r { ad_r = s }, flag')
hook_on from_ovd call r flag =
    let (s, flag') = hook call r.ovd_r flag in (record r { ovd_r = s }, flag')
hook_on from_gvd call r flag =
    let (s, flag') = hook call r.gvd_r flag in (record r { gvd_r = s }, flag')
hook_on from_avd call r flag =
    let (s, flag') = hook call r.avd_r flag in (record r { avd_r = s }, flag')

unfoldable pub hook_all : List (Origin × Call) → AllResults → Bool → AllResults × Bool
hook_all [] r flag = (r, flag)
hook_all ((origin, call) ∷ calls) r flag =
    let next = hook_on origin call r flag in hook_all calls next.0 next.1

-- `while (frame_received)`; `none` when the program would still wait behind the last interval.
unfoldable pub receive_loop : List (List (Origin × Call)) → AllResults → Bool → Option AllResults
receive_loop intervals r false = some r
receive_loop [] r true = none
receive_loop (calls ∷ later) r true =
    let next = hook_all calls r false in receive_loop later next.0 next.1

-- The bytes, the packets and the time that are written.
unfoldable pub total_results : AllResults → ℕ × ℕ × ℕ
total_results r =
    let start = find_earliest_time_point r.ad_r.start r.ovd_r.start r.gvd_r.start r.avd_r.start in
    let end = find_latest_time_point r.ad_r.last r.ovd_r.last r.gvd_r.last r.avd_r.last in
    (
      add64 (add64 (add64 r.ad_r.bytes_received r.ovd_r.bytes_received) r.gvd_r.bytes_received)
          r.avd_r.bytes_received,
      add64
          (add64 (add64 r.ad_r.packets_received r.ovd_r.packets_received) r.gvd_r.packets_received)
          r.avd_r.packets_received,
      u64 (end + 2 ^ 64 - start),
    )
