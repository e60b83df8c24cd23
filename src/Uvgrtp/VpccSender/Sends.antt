-- ===== src/Uvgrtp/VpccSender/Sends.antt =====
-- What `sender_func` of uvgrtp/vpcc_sender.cc sends, and how it counts frames.
use rtp_benchmarks.Common.{
  ℕ, ◌+◌, ◌*◌, ◌/◌, ◌%◌, ◌^◌, ltb, ◌≤◌, ◌<◌, ◌≡◌, refl, sym, ap, ◌∙◌, Bool, true, false, ◌||◌, List,
  [], ◌∷◌, ◌++◌, Option, none, some, map, Result, ok, arith, All, length, length-append, All-split,
  map-append, take, drop, get_elem?, get_elem?_of_lt, le→leb, ◌==◌, if◌then◌else◌, add64,
  Bool-cases, inl, inr,
}
use rtp_benchmarks.Common.Bits.{bit_and-six}
use rtp_benchmarks.V3c.Types.{NalInfo, V3cUnitInfo, load_bytes, v3c_gvd, v3c_avd}
use rtp_benchmarks.V3c.Write.Units.{total_size, total_size-append}
use rtp_benchmarks.Uvgrtp.Sender.{Event, push_frame, sleep_for, write_send_results, pace}
use rtp_benchmarks.Uvgrtp.Sender.Sends.{pushed}
use rtp_benchmarks.Uvgrtp.VpccSender.{
  Progress, is_param_set, count_nal, wait_for, after_nal, send_nal, send_nals, send_units,
  sender_func,
}

-- The NAL unit lies in the file, with at least its first byte.
abbrev pub IsInside : List ℕ → NalInfo → Type 0
IsInside cbuf i = (i.location < length cbuf) × (i.location + i.size ≤ length cbuf)

-- The bytes of a NAL unit in the file.
abbrev pub slice : List ℕ → NalInfo → List ℕ
slice cbuf i = take i.size (drop i.location cbuf)

abbrev pub all_nals : List V3cUnitInfo → List NalInfo
all_nals [] = []
all_nals (u ∷ us) = u.nal_infos ++ all_nals us

-- One for a NAL unit that counts for a frame, by its type: those below 32 and 35 do, 32 to 34, the
-- parameter sets of HEVC, do not, and those above 35 do in the video streams only.
abbrev pub counts_by_type : ℕ → ℕ → ℕ
counts_by_type fmt t =
    if ltb t 32 || t == 35 then 1 else if ltb t 35 then 0 else if fmt == 1 then 0 else 1

pub is_param_set_lem :
    (fmt b : ℕ) → (if is_param_set fmt b then 0 else 1) ≡ counts_by_type fmt (b / 2 % 64)
unfolding is_param_set
is_param_set_lem fmt b = ground (arith, bit_and-six (b / 2))

-- One for the first byte of a NAL unit that counts for a frame.
abbrev pub frame_byte : ℕ → Option ℕ → ℕ
frame_byte fmt none = 0
frame_byte fmt (some b) = counts_by_type fmt (b / 2 % 64)

pub frame_byte_le : (fmt : ℕ) (o : Option ℕ) → frame_byte fmt o ≤ 1
frame_byte_le fmt none = omega arith
frame_byte_le fmt (some b) = ground arith

-- The NAL units that count for frames.
abbrev pub frame_nals : List ℕ → ℕ → List NalInfo → ℕ
frame_nals cbuf fmt [] = 0
frame_nals cbuf fmt (i ∷ rest) =
    frame_byte fmt (get_elem? cbuf i.location) + frame_nals cbuf fmt rest

-- How many NAL units make a frame.
abbrev pub per_frame : ℕ → ℕ
per_frame fmt = if fmt == v3c_gvd || fmt == v3c_avd then 4 else 1

-- The counters after `n` NAL units that are no parameter sets.
abbrev IsCounted : ℕ → ℕ → Progress → Type 0
IsCounted fmt n s =
    (s.temp_nalu + s.current_frame * per_frame fmt ≡ n) × (s.temp_nalu < per_frame fmt)

pub pushed-pace : (period n r : ℕ) → pushed (pace period n r) ≡ []
unfolding pace
pushed-pace period n r = ground arith

count_nal_lem :
    (fmt n : ℕ) (s : Progress)
    → IsCounted fmt n s
    → n + 1 < 2 ^ 64
    → ((count_nal fmt s).1.bytes_sent ≡ s.bytes_sent) × IsCounted fmt (n + 1) (count_nal fmt s).1
unfolding count_nal
count_nal_lem fmt n s (c, t) h = elim (Bool-cases (fmt == v3c_gvd || fmt == v3c_avd)) [
  | inl e ↦
      let c' : s.temp_nalu + s.current_frame * 4 ≡ n = rw e at c in
      let t' : s.temp_nalu < 4 = rw e at t in rw e (ground arith)
  | inr e ↦
      let c' : s.temp_nalu + s.current_frame * 1 ≡ n = rw e at c in
      let t' : s.temp_nalu < 1 = rw e at t in rw e (ground arith)
]

wait_for_lem :
    (period runtime : ℕ) (r : Bool × Progress)
    → (pushed (wait_for period runtime r).0 ≡ []) × ((wait_for period runtime r).1 ≡ r.1)
unfolding wait_for
wait_for_lem period runtime (true, s) = (pushed-pace period s.current_frame runtime, refl)
wait_for_lem period runtime (false, s) = (refl, refl)

after_nal_lem :
    (fmt period runtime b n : ℕ) (s : Progress)
    → IsCounted fmt n s
    → n + 1 < 2 ^ 64
    → (pushed (after_nal fmt period runtime b s).0 ≡ [])
      × ((after_nal fmt period runtime b s).1.bytes_sent ≡ s.bytes_sent)
      × IsCounted fmt
          (n + (if is_param_set fmt b then 0 else 1))
          (after_nal fmt period runtime b s).1
unfolding after_nal
after_nal_lem fmt period runtime b n s (c, t) h = elim (Bool-cases (is_param_set fmt b)) [
  | inl e ↦ rw e (refl, refl, (omega arith, t))
  | inr e ↦
      let (w, k) = wait_for_lem period runtime (count_nal fmt s) in
      let (bytes, counted) = count_nal_lem fmt n s (c, t) h in
      rw e (w, ap (λ x. x.bytes_sent) k ∙ bytes, rw k counted)
]

pub pushed-append : (xs ys : List Event) → pushed (xs ++ ys) ≡ pushed xs ++ pushed ys
pushed-append [] ys = refl
pushed-append (push_frame p ∷ xs) ys = ap (λ l. p ∷ l) (pushed-append xs ys)
pushed-append (sleep_for n ∷ xs) ys = pushed-append xs ys
pushed-append (write_send_results n ∷ xs) ys = pushed-append xs ys

pub frame_nals-append :
    (cbuf : List ℕ) (fmt : ℕ) (xs ys : List NalInfo)
    → frame_nals cbuf fmt (xs ++ ys) ≡ frame_nals cbuf fmt xs + frame_nals cbuf fmt ys
frame_nals-append cbuf fmt [] ys = omega arith
frame_nals-append cbuf fmt (x ∷ xs) ys = omega (arith, frame_nals-append cbuf fmt xs ys)

frame_nals_le : (cbuf : List ℕ) (fmt : ℕ) (xs : List NalInfo) → frame_nals cbuf fmt xs ≤ length xs
frame_nals_le cbuf fmt [] = omega arith
frame_nals_le cbuf fmt (x ∷ xs) =
    omega (arith, frame_nals_le cbuf fmt xs, frame_byte_le fmt (get_elem? cbuf x.location))

pub load_bytes-slice :
    (cbuf : List ℕ) (i : NalInfo)
    → IsInside cbuf i
    → load_bytes cbuf i.location i.size ≡ ok (slice cbuf i)
load_bytes-slice cbuf i (h, k) = rw (le→leb (i.location + i.size) (length cbuf) k) refl

module _ (cbuf : List ℕ) (fmt : ℕ) (now : ℕ → ℕ) (period : ℕ) where
  -- What a run does: it pushes the given slices, adds the bytes and counts the NAL units.
  record IsSent (nals : List NalInfo) (n : ℕ) (s : Progress) (r : Result (List Event × Progress))
      : Type 0 where
    events : List Event
    last : Progress
    runs : r ≡ ok (events, last)
    pushes : pushed events ≡ map (slice cbuf) nals
    adds : last.bytes_sent ≡ s.bytes_sent + total_size nals
    counts : IsCounted fmt (n + frame_nals cbuf fmt nals) last

  send_nal-IsSent :
      (i : NalInfo) (n : ℕ) (s : Progress)
      → IsInside cbuf i
      → IsCounted fmt n s
      → n + 1 < 2 ^ 64
      → s.bytes_sent + i.size < 2 ^ 64
      → IsSent (i ∷ []) n s (send_nal cbuf fmt now period i s)
  unfolding send_nal
  send_nal-IsSent i n s (h, k) c hn hs =
      let (b, here) = get_elem?_of_lt cbuf i.location h in
      let whole = load_bytes-slice cbuf i (h, k) in
      let sent : Progress = record s { bytes_sent = add64 s.bytes_sent i.size } in
      let (p, q, r) = after_nal_lem fmt period (now sent.bytes_sent) b n sent c hn in
      record {
        events = push_frame (slice cbuf i) ∷ (after_nal fmt period (now sent.bytes_sent) b sent).0;
        last = (after_nal fmt period (now sent.bytes_sent) b sent).1;
        runs = rw (here, whole) refl;
        pushes = ap (λ l. slice cbuf i ∷ l) p;
        adds = q ∙ (omega arith);
        counts = (r.0 ∙ (omega (arith, ap (frame_byte fmt) here, is_param_set_lem fmt b)), r.1);
      }

  send_nals-IsSent :
      (nals : List NalInfo) (n : ℕ) (s : Progress)
      → All (IsInside cbuf) nals
      → IsCounted fmt n s
      → n + length nals < 2 ^ 64
      → s.bytes_sent + total_size nals < 2 ^ 64
      → IsSent nals n s (send_nals cbuf fmt now period nals s)
  unfolding send_nals
  send_nals-IsSent [] n s a c hn hs = record {
    events = [];
    last = s;
    runs = refl;
    pushes = refl;
    adds = omega arith;
    counts = (omega arith, c.1);
  }
  send_nals-IsSent (i ∷ rest) n s (h, a) c hn hs =
      let one = send_nal-IsSent i n s h c (omega arith) (omega arith) in
      let e = one.adds in
      let more =
        send_nals-IsSent rest (n + frame_nals cbuf fmt (i ∷ [])) one.last a one.counts
          (omega (arith, frame_byte_le fmt (get_elem? cbuf i.location))) (omega arith) in
      record {
        events = one.events ++ more.events;
        last = more.last;
        runs = let r1 = one.runs in let r2 = more.runs in rw (r1, r2) refl;
        pushes = pushed-append one.events more.events ∙ rw (one.pushes, more.pushes) refl;
        adds = let e2 = more.adds in omega arith;
        counts = (more.counts.0 ∙ (omega arith), more.counts.1);
      }

  IsSent-nil : (n : ℕ) (s : Progress) → IsCounted fmt n s → IsSent [] n s (ok ([], s))
  IsSent-nil n s c = record {
    events = [];
    last = s;
    runs = refl;
    pushes = refl;
    adds = omega arith;
    counts = (omega arith, c.1);
  }

  send_units-IsSent :
      (units : List V3cUnitInfo) (n : ℕ) (s : Progress)
      → All (IsInside cbuf) (all_nals units)
      → IsCounted fmt n s
      → n + length (all_nals units) < 2 ^ 64
      → s.bytes_sent + total_size (all_nals units) < 2 ^ 64
      → IsSent (all_nals units) n s (send_units cbuf fmt now period units s)
  unfolding send_units
  send_units-IsSent [] n s a c hn hs = IsSent-nil n s c
  send_units-IsSent (u ∷ rest) n s a c hn hs =
      let (a1, a2) = All-split (IsInside cbuf) u.nal_infos (all_nals rest) a in
      let l = length-append {0} u.nal_infos (all_nals rest) in
      let t = total_size-append u.nal_infos (all_nals rest) in
      let f = frame_nals-append cbuf fmt u.nal_infos (all_nals rest) in
      let one = send_nals-IsSent u.nal_infos n s a1 c (omega arith) (omega arith) in
      let e = one.adds in
      let more =
        send_units-IsSent rest (n + frame_nals cbuf fmt u.nal_infos) one.last a2 one.counts
          (omega (arith, frame_nals_le cbuf fmt u.nal_infos)) (omega arith) in
      record {
        events = one.events ++ more.events;
        last = more.last;
        runs = let r1 = one.runs in let r2 = more.runs in rw (r1, r2) refl;
        pushes =
            pushed-append one.events more.events
            ∙ rw (one.pushes, more.pushes)
                (sym (map-append (slice cbuf) u.nal_infos (all_nals rest)));
        adds = let e2 = more.adds in omega arith;
        counts = (more.counts.0 ∙ (omega arith), more.counts.1);
      }

  -- When every NAL unit of the stream lies in the file, the thread pushes each of them once, in
  -- order and nothing else, whatever the clock shows, and reports the sum of their sizes.
  pub sender_func-pushed :
      (units : List V3cUnitInfo)
      → All (IsInside cbuf) (all_nals units)
      → length (all_nals units) < 2 ^ 64
      → total_size (all_nals units) < 2 ^ 64
      → (events : List Event) × (sender_func cbuf fmt now period units
          ≡ ok (events, total_size (all_nals units)))
        × (pushed events ≡ map (slice cbuf) (all_nals units))
  unfolding sender_func
  sender_func-pushed units a hn hs =
      let fresh : Progress = record { temp_nalu = 0; current_frame = 0; bytes_sent = 0 } in
      let start : IsCounted fmt 0 fresh = (omega arith, ground arith) in
      let run = send_units-IsSent units 0 fresh a start (omega arith) (omega arith) in
      let total : run.last.bytes_sent ≡ total_size (all_nals units) = run.adds ∙ (omega arith) in
      (run.events, rw (run.runs, total) refl, run.pushes)

  -- When every NAL unit of the stream lies in the file, the thread has behind the whole stream counted
  -- a frame for each four NAL units that count when it sends geometry or attribute video, and for each
  -- one otherwise. Those of a type from 32 to 34 do not count, nor in an atlas stream those above 35.
  pub send_units-current_frame :
      (units : List V3cUnitInfo)
      → All (IsInside cbuf) (all_nals units)
      → length (all_nals units) < 2 ^ 64
      → total_size (all_nals units) < 2 ^ 64
      → (events : List Event) × (last : Progress) × (send_units cbuf fmt now period units
            (record { temp_nalu = 0; current_frame = 0; bytes_sent = 0 })
          ≡ ok (events, last))
        × (last.temp_nalu + last.current_frame * per_frame fmt
            ≡ frame_nals cbuf fmt (all_nals units))
        × (last.temp_nalu < per_frame fmt)
  send_units-current_frame units a hn hs =
      let fresh : Progress = record { temp_nalu = 0; current_frame = 0; bytes_sent = 0 } in
      let start : IsCounted fmt 0 fresh = (omega arith, ground arith) in
      let run = send_units-IsSent units 0 fresh a start (omega arith) (omega arith) in
      (run.events, run.last, run.runs, run.counts.0 ∙ (omega arith), run.counts.1)
