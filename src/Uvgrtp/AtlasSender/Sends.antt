-- ===== src/Uvgrtp/AtlasSender/Sends.antt =====
-- What `sender_func` of uvgrtp/sender.cc sends.
use rtp_benchmarks.Common.{
  ℕ, ◌+◌, ◌/◌, ◌%◌, ◌^◌, ◌≤◌, ◌<◌, ◌≡◌, refl, ap, ◌∙◌, Bool, true, false, List, [], ◌∷◌, ◌++◌,
  Option, none, some, map, Result, ok, arith, All, All-split, get_elem?, get_elem?_of_lt,
  if◌then◌else◌, add64, u64, Bool-cases, inl, inr, not, ltb,
}
use rtp_benchmarks.Common.Bits.{bit_and-six}
use rtp_benchmarks.V3c.Types.{NalInfo, V3cUnitInfo}
use rtp_benchmarks.V3c.Write.Units.{total_size, total_size-append}
use rtp_benchmarks.Uvgrtp.Sender.{Event, push_frame, write_send_results, pace, after_push}
use rtp_benchmarks.Uvgrtp.Sender.Sends.{pushed, written, pushed-pace, written-pace}
use rtp_benchmarks.Uvgrtp.VpccSender.Sends.{IsInside, slice, all_nals, load_bytes-slice}
use rtp_benchmarks.Uvgrtp.AtlasSender.{
  is_skipped, send_atlas_nal, send_atlas_nals, send_atlas_units, atlas_sender_func,
}

-- The tiles have the types below 30.
pub is_skipped_lem : (b : ℕ) → is_skipped b ≡ not (ltb (b / 2 % 64) 30)
unfolding is_skipped
is_skipped_lem b = ground (arith, bit_and-six (b / 2))

pub is_tile_lem : (b : ℕ) (r : Bool) → is_skipped b ≡ r → ltb (b / 2 % 64) 30 ≡ not r
is_tile_lem b r e = ground (arith, is_skipped_lem b)

abbrev pub keep : NalInfo → Option ℕ → List NalInfo → List NalInfo
keep i none rest = i ∷ rest
keep i (some b) rest = if ltb (b / 2 % 64) 30 then i ∷ rest else rest

-- The NAL units of some units that have a type below 30, by their first byte in the file.
abbrev pub kept_nals : List ℕ → List NalInfo → List NalInfo → List NalInfo
kept_nals cbuf [] more = more
kept_nals cbuf (i ∷ rest) more = keep i (get_elem? cbuf i.location) (kept_nals cbuf rest more)

abbrev pub kept : List ℕ → List V3cUnitInfo → List NalInfo
kept cbuf [] = []
kept cbuf (u ∷ us) = kept_nals cbuf u.nal_infos (kept cbuf us)

module _ (push : ℕ → Bool) (now : ℕ → ℕ) (period : ℕ) (cbuf : List ℕ)
    (accepts : (n : ℕ) → push n ≡ true) where
  -- A run that pushes the given units and then writes the bytes of all.
  abbrev IsRun : List NalInfo → ℕ → Result (List Event) → Type 0
  IsRun nals bytes_sent r =
      (events : List Event) × (r ≡ ok events)
      × (pushed events ≡ map (slice cbuf) nals)
      × (written events ≡ (bytes_sent + total_size nals) ∷ [])

  send_atlas_nal-IsRun :
      (i : NalInfo) (nals : List NalInfo) (bytes_sent current_frame : ℕ)
      (rest : ℕ → ℕ → Result (List Event))
      → IsInside cbuf i
      → bytes_sent + i.size < 2 ^ 64
      → ((n m : ℕ) → n ≤ bytes_sent + i.size → IsRun nals n (rest n m))
      → IsRun
          (keep i (get_elem? cbuf i.location) nals)
          bytes_sent
          (send_atlas_nal push now period cbuf i bytes_sent current_frame rest)
  unfolding send_atlas_nal after_push
  send_atlas_nal-IsRun i nals bytes_sent current_frame rest (h, k) small runs =
      let (b, here) = get_elem?_of_lt cbuf i.location h in
      let whole = load_bytes-slice cbuf i (h, k) in
      elim (Bool-cases (is_skipped b)) [
        | inl e ↦ rw (here, e, is_tile_lem b true e) (runs bytes_sent current_frame (omega arith))
        | inr e ↦
            let (events, run, p, w) =
              runs (add64 bytes_sent i.size) (u64 (current_frame + 1)) (omega arith) in
            rw (here, e, is_tile_lem b false e, whole, accepts current_frame, run)
              (
                push_frame (slice cbuf i)
                    ∷ (pace period (u64 (current_frame + 1)) (now current_frame) ++ events),
                refl,
                ap (λ l. slice cbuf i ∷ l)
                    (pushed-pace period (u64 (current_frame + 1)) (now current_frame) events ∙ p),
                written-pace period (u64 (current_frame + 1)) (now current_frame) events
                    ∙ w
                    ∙ ap (λ n. n ∷ []) (omega arith),
              )
      ]

  send_atlas_nals-IsRun :
      (nals more : List NalInfo) (units : ℕ → ℕ → Result (List Event))
      (bytes_sent current_frame : ℕ)
      → All (IsInside cbuf) nals
      → bytes_sent + total_size nals < 2 ^ 64
      → ((n m : ℕ) → n ≤ bytes_sent + total_size nals → IsRun more n (units n m))
      → IsRun
          (kept_nals cbuf nals more)
          bytes_sent
          (send_atlas_nals push now period cbuf nals units bytes_sent current_frame)
  unfolding send_atlas_nals
  send_atlas_nals-IsRun [] more units bytes_sent current_frame a small runs =
      runs bytes_sent current_frame (omega arith)
  send_atlas_nals-IsRun (i ∷ nals) more units bytes_sent current_frame (h, a) small runs =
      send_atlas_nal-IsRun i (kept_nals cbuf nals more) bytes_sent current_frame
        (send_atlas_nals push now period cbuf nals units) h (omega arith)
        (λ n m le.
          send_atlas_nals-IsRun nals more units n m a (omega arith)
            (λ n' m' le'. runs n' m' (omega arith)))

  send_atlas_units-IsRun :
      (units : List V3cUnitInfo) (bytes_sent current_frame : ℕ)
      → All (IsInside cbuf) (all_nals units)
      → bytes_sent + total_size (all_nals units) < 2 ^ 64
      → IsRun
          (kept cbuf units)
          bytes_sent
          (send_atlas_units push now period cbuf units bytes_sent current_frame)
  unfolding send_atlas_units
  send_atlas_units-IsRun [] bytes_sent current_frame a small =
      (write_send_results bytes_sent ∷ [], refl, refl, ap (λ n. n ∷ []) (omega arith))
  send_atlas_units-IsRun (u ∷ units) bytes_sent current_frame a small =
      let (a1, a2) = All-split (IsInside cbuf) u.nal_infos (all_nals units) a in
      let t = total_size-append u.nal_infos (all_nals units) in
      send_atlas_nals-IsRun u.nal_infos (kept cbuf units)
        (send_atlas_units push now period cbuf units) bytes_sent current_frame a1 (omega arith)
        (λ n m le. send_atlas_units-IsRun units n m a2 (omega arith))

  -- When every NAL unit of an atlas stream lies in the file and the library accepts each push, the
  -- thread pushes exactly the NAL units of a type below 30, in order, and writes one result, the sum
  -- of their sizes.
  pub atlas_sender_func-pushed :
      (units : List V3cUnitInfo)
      → All (IsInside cbuf) (all_nals units)
      → total_size (all_nals units) < 2 ^ 64
      → (events : List Event) × (atlas_sender_func push now period cbuf units ≡ ok events)
        × (pushed events ≡ map (slice cbuf) (kept cbuf units))
        × (written events ≡ total_size (kept cbuf units) ∷ [])
  unfolding atlas_sender_func
  atlas_sender_func-pushed units a small =
      let (events, run, p, w) = send_atlas_units-IsRun units 0 0 a (omega arith) in
      (events, run, p, w ∙ ap (λ n. n ∷ []) (omega arith))
