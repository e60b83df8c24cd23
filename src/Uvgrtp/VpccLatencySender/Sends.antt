-- ===== src/Uvgrtp/VpccLatencySender/Sends.antt =====
-- What the latency sender pushes and logs, and what the hooks log when every frame comes back.
use rtp_benchmarks.Common.{
  ℕ, zero, suc, ◌+◌, ◌≡◌, refl, sym, ap, ◌∙◌, Bool, true, false, ◌||◌, List, [], ◌∷◌, ◌++◌, some,
  map, Result, ok, arith, All, length, All-split, map-append, get_elem?_of_lt, ltb, ◌==◌, u64,
  Bool-cases, inl, inr,
}
use rtp_benchmarks.V3c.Types.{NalInfo, V3cUnitInfo, v3c_gvd, v3c_avd}
use rtp_benchmarks.Uvgrtp.Sender.{Event, push_frame}
use rtp_benchmarks.Uvgrtp.Sender.Sends.{pushed}
use rtp_benchmarks.Uvgrtp.VpccSender.{is_param_set}
use rtp_benchmarks.Uvgrtp.VpccSender.Sends.{
  IsInside, slice, all_nals, frame_nals, load_bytes-slice, pushed-pace, pushed-append, frame_byte,
  is_param_set_lem, frame_nals-append,
}
use rtp_benchmarks.Uvgrtp.VpccLatencySender.{
  SendState, log_time, end_nal, after_send, latency_nal, latency_nals, latency_units,
  latency_sender_func,
}

-- `now k`, `now (k + 1)` and so on, `n` times.
abbrev pub times_from : (ℕ → ℕ) → ℕ → ℕ → List ℕ
times_from now k zero = []
times_from now k (suc n) = now k ∷ times_from now (k + 1) n

pub length-times_from : (now : ℕ → ℕ) (k n : ℕ) → length (times_from now k n) ≡ n
length-times_from now k zero = refl
length-times_from now k (suc n) = ap suc (length-times_from now (k + 1) n)

times_from-suc :
    (now : ℕ → ℕ) (k n m : ℕ)
    → m ≡ k + n
    → times_from now k (suc n) ≡ times_from now k n ++ now m ∷ []
times_from-suc now k zero m e = let e' : k ≡ m = omega arith in ap (λ j. now j ∷ []) e'
times_from-suc now k (suc n) m e =
    ap (λ l. now k ∷ l) (times_from-suc now (k + 1) n m (omega arith))

after_send_lem :
    (p : Bool) (fmt period runtime : ℕ) (s : SendState)
    → (pushed (after_send p fmt period runtime s).0 ≡ [])
      × ((after_send p fmt period runtime s).1.send_times ≡ s.send_times)
unfolding after_send end_nal
after_send_lem true fmt period runtime s = (refl, refl)
after_send_lem false fmt period runtime s =
    let frames = u64 (s.current_frame + 1) in
    let waits = pushed-pace period frames runtime in
    elim (Bool-cases (fmt == v3c_gvd || fmt == v3c_avd)) [
      | inl e ↦ elim (Bool-cases (ltb (u64 (s.temp_nalu + 1)) 4)) [
        | inl f ↦ rw (e, f) (refl, refl)
        | inr f ↦ rw (e, f) (waits, refl)
      ]
      | inr e ↦ rw e (waits, refl)
    ]

abbrev fresh : SendState
fresh = record { temp_nalu = 0; current_frame = 0; send_times = [] }

log_time_lem :
    (fmt b n : ℕ) (now : ℕ → ℕ) (s : SendState)
    → s.send_times ≡ times_from now 0 n
    → (log_time (is_param_set fmt b) (now (length s.send_times)) s).send_times
      ≡ times_from now 0 (n + frame_byte fmt (some b))
unfolding log_time
log_time_lem fmt b n now s h = elim (Bool-cases (is_param_set fmt b)) [
  | inl e ↦
      let c : 0 ≡ frame_byte fmt (some b) = rw e at (is_param_set_lem fmt b) in
      let z : n + frame_byte fmt (some b) ≡ n = omega arith in rw (e, z) h
  | inr e ↦
      let l : length s.send_times ≡ n = ap length h ∙ length-times_from now 0 n in
      let c : 1 ≡ frame_byte fmt (some b) = rw e at (is_param_set_lem fmt b) in
      let z : n + frame_byte fmt (some b) ≡ suc n = omega arith in
      rw (e, z, l, h) (sym (times_from-suc now 0 n n (omega arith)))
]

module _ (cbuf : List ℕ) (fmt : ℕ) (now runtime : ℕ → ℕ) (period : ℕ) where
  -- What a run does: it pushes the given slices and logs a time for each that is no parameter set.
  record IsLogged (nals : List NalInfo) (n : ℕ) (r : Result (List Event × SendState)) : Type 0 where
    events : List Event
    last : SendState
    runs : r ≡ ok (events, last)
    pushes : pushed events ≡ map (slice cbuf) nals
    logs : last.send_times ≡ times_from now 0 (n + frame_nals cbuf fmt nals)

  latency_nal-IsLogged :
      (i : NalInfo) (n : ℕ) (s : SendState)
      → IsInside cbuf i
      → s.send_times ≡ times_from now 0 n
      → IsLogged (i ∷ []) n (latency_nal cbuf fmt now runtime period i s)
  unfolding latency_nal
  latency_nal-IsLogged i n s (h, k) t =
      let (b, here) = get_elem?_of_lt cbuf i.location h in
      let whole = load_bytes-slice cbuf i (h, k) in
      let p = is_param_set fmt b in
      let logged = log_time p (now (length s.send_times)) s in
      let (w, same) = after_send_lem p fmt period (runtime (length logged.send_times)) logged in
      let rest = after_send p fmt period (runtime (length logged.send_times)) logged in
      let count : n + frame_byte fmt (some b) ≡ n + frame_nals cbuf fmt (i ∷ []) =
        omega (arith, ap (frame_byte fmt) here) in
      record {
        events = push_frame (slice cbuf i) ∷ rest.0;
        last = rest.1;
        runs = rw (here, whole) refl;
        pushes = ap (λ l. slice cbuf i ∷ l) w;
        logs = same ∙ log_time_lem fmt b n now s t ∙ ap (times_from now 0) count;
      }

  IsLogged-nil :
      (n : ℕ) (s : SendState) → s.send_times ≡ times_from now 0 n → IsLogged [] n (ok ([], s))
  IsLogged-nil n s t = record {
    events = [];
    last = s;
    runs = refl;
    pushes = refl;
    logs = let e : n + 0 ≡ n = omega arith in rw e t;
  }

  latency_nals-IsLogged :
      (nals : List NalInfo) (n : ℕ) (s : SendState)
      → All (IsInside cbuf) nals
      → s.send_times ≡ times_from now 0 n
      → IsLogged nals n (latency_nals cbuf fmt now runtime period nals s)
  unfolding latency_nals
  latency_nals-IsLogged [] n s a t = IsLogged-nil n s t
  latency_nals-IsLogged (i ∷ rest) n s (h, a) t =
      let one = latency_nal-IsLogged i n s h t in
      let more =
        latency_nals-IsLogged rest (n + frame_nals cbuf fmt (i ∷ [])) one.last a one.logs in
      let sum : n + frame_nals cbuf fmt (i ∷ []) + frame_nals cbuf fmt rest
          ≡ n + frame_nals cbuf fmt (i ∷ rest) =
        omega arith in
      record {
        events = one.events ++ more.events;
        last = more.last;
        runs = let r1 = one.runs in let r2 = more.runs in rw (r1, r2) refl;
        pushes = pushed-append one.events more.events ∙ rw (one.pushes, more.pushes) refl;
        logs = more.logs ∙ ap (times_from now 0) sum;
      }

  latency_units-IsLogged :
      (units : List V3cUnitInfo) (n : ℕ) (s : SendState)
      → All (IsInside cbuf) (all_nals units)
      → s.send_times ≡ times_from now 0 n
      → IsLogged (all_nals units) n (latency_units cbuf fmt now runtime period units s)
  unfolding latency_units
  latency_units-IsLogged [] n s a t = IsLogged-nil n s t
  latency_units-IsLogged (u ∷ rest) n s a t =
      let (a1, a2) = All-split (IsInside cbuf) u.nal_infos (all_nals rest) a in
      let one = latency_nals-IsLogged u.nal_infos n s a1 t in
      let more =
        latency_units-IsLogged rest (n + frame_nals cbuf fmt u.nal_infos) one.last a2 one.logs in
      let sum : n + frame_nals cbuf fmt u.nal_infos + frame_nals cbuf fmt (all_nals rest)
          ≡ n + frame_nals cbuf fmt (u.nal_infos ++ all_nals rest) =
        omega (arith, frame_nals-append cbuf fmt u.nal_infos (all_nals rest)) in
      record {
        events = one.events ++ more.events;
        last = more.last;
        runs = let r1 = one.runs in let r2 = more.runs in rw (r1, r2) refl;
        pushes =
            pushed-append one.events more.events
            ∙ rw (one.pushes, more.pushes)
                (sym (map-append (slice cbuf) u.nal_infos (all_nals rest)));
        logs = more.logs ∙ ap (times_from now 0) sum;
      }

  -- When every NAL unit of the stream lies in the file, `sender_func` pushes each of them once, in
  -- order and nothing else, and logs one time, the next that the clock shows, for each of them that
  -- is no parameter set.
  pub latency_sender_func-pushed :
      (units : List V3cUnitInfo)
      → All (IsInside cbuf) (all_nals units)
      → (events : List Event) × (latency_sender_func cbuf fmt now runtime period units
          ≡ ok (events, times_from now 0 (frame_nals cbuf fmt (all_nals units))))
        × (pushed events ≡ map (slice cbuf) (all_nals units))
  unfolding latency_sender_func
  latency_sender_func-pushed units a =
      let run = latency_units-IsLogged units 0 fresh a refl in
      let z : 0 + frame_nals cbuf fmt (all_nals units) ≡ frame_nals cbuf fmt (all_nals units) =
        omega arith in
      let l = run.logs ∙ ap (times_from now 0) z in
      (run.events, (let r = run.runs in rw (r, l) refl), run.pushes)
