-- ===== src/Uvgrtp/LatencySender/Atlas.antt =====
-- What the loop over the atlas units in uvgrtp/latency_sender.cc pushes and logs, when some push may
-- be refused.
use mathlib.Core.Path.{subst}
use rtp_benchmarks.Common.{
  ℕ, ◌+◌, ◌^◌, ◌/◌, ◌%◌, ◌<◌, ◌≡◌, ◌⊎◌, not, ltb, Option, none, some, append-nil, append_assoc,
  get_elem?, refl, sym, ap, ◌∙◌, Bool, true, false, List, [], ◌∷◌, ◌++◌, map, Result, ok, ◌>>=◌,
  >>=_assoc, arith, All, length, u64, Bool-cases, inl, inr, get_elem?_of_lt,
}
use rtp_benchmarks.Common.Bits.{bit_and-six}
use rtp_benchmarks.V3c.Types.{NalInfo, V3cUnitInfo}
use rtp_benchmarks.Uvgrtp.Sender.{Event, push_frame, pace}
use rtp_benchmarks.Uvgrtp.Sender.Sends.{pushed, pushed-pace}
use rtp_benchmarks.Uvgrtp.AtlasSender.{is_skipped}
use rtp_benchmarks.Uvgrtp.AtlasSender.Sends.{is_tile_lem, kept_nals}
use rtp_benchmarks.Uvgrtp.VpccSender.Sends.{IsInside, slice, all_nals, load_bytes-slice}
use rtp_benchmarks.Uvgrtp.LatencySender.{
  Step, and_then, AtlasState, FrameKind, intra, inter, atlas_kind, log_send, after_atlas,
  latency_atlas_nal, latency_atlas_nals, latency_atlas_units,
}
use rtp_benchmarks.Uvgrtp.LatencySender.Steps.{and_then_nil, and_then_assoc}
use rtp_benchmarks.Uvgrtp.LatencySender.Chunks.{up_to_refused}

-- A NAL unit that is not skipped is inter below the type 16, and intra otherwise.
atlas_kind-kept :
    (b : ℕ)
    → is_skipped b ≡ false
    → ((atlas_kind b ≡ inter) × (ltb (b / 2 % 64) 16 ≡ true))
      ⊎ ((atlas_kind b ≡ intra) × (ltb (b / 2 % 64) 16 ≡ false))
unfolding atlas_kind is_skipped
atlas_kind-kept b h = ground (arith, bit_and-six (b / 2))

log_send-frame_number :
    (k : FrameKind) (ms : ℕ) (s : AtlasState) → (log_send k ms s).frame_number ≡ s.frame_number
unfolding log_send
log_send-frame_number k ms s = ground arith

log_send-after :
    (k : FrameKind) (ms : ℕ) (s : AtlasState)
    → (log_send k ms s).after_send_times ≡ s.after_send_times
unfolding log_send
log_send-after k ms s = ground arith

-- Whether the NAL unit is intra, with a type from 16 on, by its first byte in the file.
abbrev byte_is_intra : Option ℕ → Bool
byte_is_intra none = false
byte_is_intra (some b) = not (ltb (b / 2 % 64) 16)

abbrev only_if : Bool → ℕ → List ℕ
only_if true time = time ∷ []
only_if false time = []

module _ (push : ℕ → Bool) (now after runtime : ℕ → ℕ) (period : ℕ) (cbuf : List ℕ) where
  -- The times before the pushes of some NAL units, from the frame number `n` on: of all of them, of the
  -- inter and of the intra ones. The times behind them are those of the pushes that are accepted.
  abbrev pub times_before : ℕ → List NalInfo → List ℕ
  times_before n [] = []
  times_before n (i ∷ is) = (now n ∷ []) ++ times_before (n + 1) is

  abbrev pub inter_times : ℕ → List NalInfo → List ℕ
  inter_times n [] = []
  inter_times n (i ∷ is) =
      only_if (not (byte_is_intra (get_elem? cbuf i.location))) (now n) ++ inter_times (n + 1) is

  abbrev pub intra_times : ℕ → List NalInfo → List ℕ
  intra_times n [] = []
  intra_times n (i ∷ is) =
      only_if (byte_is_intra (get_elem? cbuf i.location)) (now n) ++ intra_times (n + 1) is

  abbrev pub times_behind : ℕ → List NalInfo → List ℕ
  times_behind n [] = []
  times_behind n (i ∷ is) = only_if (push n) (after n) ++ times_behind (n + 1) is

  -- The times that have been logged for the pushes of some NAL units.
  pub record IsLogged (n : ℕ) (s t : AtlasState) (nals : List NalInfo) : Type 0 where
    pub sends : t.send_times ≡ s.send_times ++ times_before n nals
    pub inters : t.inter_send ≡ s.inter_send ++ inter_times n nals
    pub intras : t.intra_send ≡ s.intra_send ++ intra_times n nals
    pub afters : t.after_send_times ≡ s.after_send_times ++ times_behind n nals

  -- What is logged before the push of one NAL unit.
  record IsNoted (n : ℕ) (i : NalInfo) (s t : AtlasState) : Type 0 where
    sends : t.send_times ≡ s.send_times ++ now n ∷ []
    inters :
        t.inter_send
        ≡ s.inter_send ++ only_if (not (byte_is_intra (get_elem? cbuf i.location))) (now n)
    intras :
        t.intra_send ≡ s.intra_send ++ only_if (byte_is_intra (get_elem? cbuf i.location)) (now n)
    afters : t.after_send_times ≡ s.after_send_times

  log_send-IsNoted :
      (b n : ℕ) (i : NalInfo) (s : AtlasState)
      → get_elem? cbuf i.location ≡ some b
      → is_skipped b ≡ false
      → IsNoted n i s (log_send (atlas_kind b) (now n) s)
  unfolding log_send
  log_send-IsNoted b n i s here h = elim (atlas_kind-kept b h) [
    | inl (e, f) ↦ rw e (record {
      sends = refl;
      inters = rw (here, f) refl;
      intras = rw (here, f) (sym (append-nil s.intra_send));
      afters = refl;
    })
    | inr (e, f) ↦ rw e (record {
      sends = refl;
      inters = rw (here, f) (sym (append-nil s.inter_send));
      intras = rw (here, f) refl;
      afters = refl;
    })
  ]

  -- A push that is refused, and one that is accepted with what follows it.
  IsLogged-refused :
      (n : ℕ) (i : NalInfo) (s t : AtlasState)
      → push n ≡ false
      → IsNoted n i s t
      → IsLogged n s t (i ∷ [])
  IsLogged-refused n i s t e a = record {
    sends = a.sends;
    inters = a.inters ∙ ap (λ l. s.inter_send ++ l) (sym (append-nil _));
    intras = a.intras ∙ ap (λ l. s.intra_send ++ l) (sym (append-nil _));
    afters = rw e (a.afters ∙ sym (append-nil s.after_send_times));
  }

  behind_one :
      (xs ys zs before last : List ℕ)
      → last ≡ ys ++ zs
      → ys ≡ xs ++ before
      → last ≡ xs ++ (before ++ zs)
  behind_one xs ys zs before last e f = e ∙ ap (λ l. l ++ zs) f ∙ append_assoc xs before zs

  IsLogged-step :
      (n k : ℕ) (i : NalInfo) (s t u : AtlasState) (nals : List NalInfo)
      → push n ≡ true
      → IsNoted n i s t
      → IsLogged
          (n + 1)
          (record t { frame_number = k; after_send_times = t.after_send_times ++ after n ∷ [] })
          u
          nals
      → IsLogged n s u (i ∷ nals)
  IsLogged-step n k i s t u nals e a b = record {
    sends = behind_one s.send_times t.send_times _ _ _ b.sends a.sends;
    inters = behind_one s.inter_send t.inter_send _ _ _ b.inters a.inters;
    intras = behind_one s.intra_send t.intra_send _ _ _ b.intras a.intras;
    afters = rw e (
        behind_one s.after_send_times (t.after_send_times ++ after n ∷ []) _ _ _ b.afters
          (ap (λ l. l ++ after n ∷ []) a.afters));
  }

  -- What a loop does that pushes the given payloads and then goes on or not.
  pub record IsSent (s : AtlasState) (sends : List NalInfo × Bool) (r : Result (Step AtlasState))
      : Type 0 where
    pub events : List Event
    pub last : AtlasState
    pub runs : r ≡ ok (events, last, sends.1)
    pub pushes : pushed events ≡ map (slice cbuf) sends.0
    pub logs : IsLogged s.frame_number s last sends.0

  latency_atlas_nals-IsSent :
      (nals : List NalInfo) (s : AtlasState)
      → All (IsInside cbuf) nals
      → s.frame_number + length nals < 2 ^ 64
      → IsSent s
          (up_to_refused push s.frame_number (kept_nals cbuf nals []))
          (latency_atlas_nals push now after runtime period cbuf nals s)
  unfolding latency_atlas_nals latency_atlas_nal after_atlas and_then
  latency_atlas_nals-IsSent [] s a h = record {
    events = [];
    last = s;
    runs = refl;
    pushes = refl;
    logs = record {
      sends = sym (append-nil s.send_times);
      inters = sym (append-nil s.inter_send);
      intras = sym (append-nil s.intra_send);
      afters = sym (append-nil s.after_send_times);
    };
  }
  latency_atlas_nals-IsSent (i ∷ nals) s ((p, q), a) h =
      let (b, here) = get_elem?_of_lt cbuf i.location p in
      let whole = load_bytes-slice cbuf i (p, q) in
      let logged = log_send (atlas_kind b) (now s.frame_number) s in
      let frame = slice cbuf i in
      elim (Bool-cases (is_skipped b)) [
        | inl e ↦
            let more = latency_atlas_nals-IsSent nals s a (omega arith) in
            rw (here, is_tile_lem b true e, e)
              (record {
                events = more.events;
                last = more.last;
                runs = let r = more.runs in rw r refl;
                pushes = more.pushes;
                logs = more.logs;
              })
        | inr e ↦
            let one = log_send-IsNoted b s.frame_number i s here e in
            elim (Bool-cases (push s.frame_number)) [
              | inr f ↦
                  rw (here, is_tile_lem b false e, e, whole, f)
                    (record {
                      events = push_frame frame ∷ [];
                      last = logged;
                      runs = refl;
                      pushes = refl;
                      logs = IsLogged-refused s.frame_number i s logged f one;
                    })
              | inl f ↦
                  let k = u64 (logged.frame_number + 1) in
                  let next : AtlasState = record logged {
                    frame_number = k;
                    after_send_times = logged.after_send_times ++ after logged.frame_number ∷ [];
                  } in
                  let g = log_send-frame_number (atlas_kind b) (now s.frame_number) s in
                  let number : k ≡ s.frame_number + 1 = omega arith in
                  let more = latency_atlas_nals-IsSent nals next a (omega arith) in
                  let rest = kept_nals cbuf nals [] in
                  let logged_more : IsLogged (s.frame_number + 1) next more.last
                      (up_to_refused push (s.frame_number + 1) rest).0 =
                    subst (λ n. IsLogged n next more.last (up_to_refused push n rest).0) number
                      more.logs in
                  let logged_next =
                    subst
                      (λ m.
                        IsLogged (s.frame_number + 1)
                          (record logged {
                            frame_number = k;
                            after_send_times = logged.after_send_times ++ after m ∷ [];
                          })
                          more.last (up_to_refused push (s.frame_number + 1) rest).0)
                      g logged_more in
                  let waits = pace period k (runtime logged.frame_number) in
                  let run =
                    more.runs
                    ∙ ap (λ n. ok (more.events, more.last, (up_to_refused push n rest).1)) number in
                  rw (here, is_tile_lem b false e, e, whole, f)
                    (record {
                      events = push_frame frame ∷ waits ++ more.events;
                      last = more.last;
                      runs = rw run refl;
                      pushes =
                          ap (λ l. frame ∷ l)
                            (pushed-pace period k (runtime logged.frame_number) more.events
                              ∙ more.pushes
                              ∙ ap (λ n. map (slice cbuf) (up_to_refused push n rest).0) number);
                      logs =
                          IsLogged-step s.frame_number k i s logged more.last
                            (up_to_refused push (s.frame_number + 1) rest).0 f one logged_next;
                    })
            ]
      ]

  latency_atlas_nals-nil :
      (s : AtlasState)
      → ok ([], s, true) ≡ latency_atlas_nals push now after runtime period cbuf [] s
  unfolding latency_atlas_nals
  latency_atlas_nals-nil s = refl

  latency_atlas_nals-append :
      (xs ys : List NalInfo) (s : AtlasState)
      → latency_atlas_nals push now after runtime period cbuf (xs ++ ys) s ≡ (
          latency_atlas_nals push now after runtime period cbuf xs s
          >>= (λ r. and_then r (latency_atlas_nals push now after runtime period cbuf ys)))
  unfolding latency_atlas_nals
  latency_atlas_nals-append [] ys s =
      sym (and_then_nil s (latency_atlas_nals push now after runtime period cbuf ys))
  latency_atlas_nals-append (i ∷ xs) ys s =
      let one = latency_atlas_nal push now after runtime period cbuf i s in
      let loop = latency_atlas_nals push now after runtime period cbuf in
      ap (λ f. one >>= (λ r. and_then r f)) (λ j t. latency_atlas_nals-append xs ys t j)
      ∙ ap (λ f. one >>= f) (λ j r. sym (and_then_assoc r (loop xs) (loop ys)) j)
      ∙ sym (>>=_assoc one (λ r. and_then r (loop xs)) (λ r. and_then r (loop ys)))

  -- All units are as one list of NAL units.
  nals-units :
      (units : List V3cUnitInfo) (s : AtlasState)
      → latency_atlas_units push now after runtime period cbuf units s
        ≡ latency_atlas_nals push now after runtime period cbuf (all_nals units) s
  unfolding latency_atlas_units
  nals-units [] s = latency_atlas_nals-nil s
  nals-units (u ∷ units) s =
      ap
        (λ f.
          latency_atlas_nals push now after runtime period cbuf u.nal_infos s
          >>= (λ r. and_then r f))
        (λ i t. nals-units units t i)
      ∙ sym (latency_atlas_nals-append u.nal_infos (all_nals units) s)

  -- When every NAL unit of the atlas stream lies in the file, the loop pushes those of a type below
  -- 30, in order, up to the first that the library refuses, and nothing behind it, and ends well
  -- exactly when none is refused. It then has the time before each push, in order, also in the list of
  -- the inter frames when the type is below 16 and in the list of the intra frames otherwise, and the
  -- time behind each push but the refused one.
  pub latency_atlas_units-IsSent :
      (units : List V3cUnitInfo) (s : AtlasState)
      → All (IsInside cbuf) (all_nals units)
      → s.frame_number + length (all_nals units) < 2 ^ 64
      → IsSent s
          (up_to_refused push s.frame_number (kept_nals cbuf (all_nals units) []))
          (latency_atlas_units push now after runtime period cbuf units s)
  latency_atlas_units-IsSent units s a h =
      rw (nals-units units s) (latency_atlas_nals-IsSent (all_nals units) s a h)
