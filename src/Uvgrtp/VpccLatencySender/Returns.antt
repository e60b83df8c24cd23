-- ===== src/Uvgrtp/VpccLatencySender/Returns.antt =====
-- What the hooks of uvgrtp/vpcc_latency_sender.cc log when every frame comes back.
use rtp_benchmarks.Common.{
  ℕ, zero, suc, ◌+◌, ◌/◌, ◌<◌, ◌≡◌, refl, ap, ◌∙◌, Bool, true, false, ◌||◌, ◌&&◌, List, [], ◌∷◌,
  ◌++◌, Option, none, some, map, ok, arith, All, length, length-append, take, drop, get_elem?,
  get_elem?_of_lt, ltb, leb, ◌==◌, if◌then◌else◌, Bool-cases, inl, inr, get_elem?-drop,
}
use rtp_benchmarks.Common.Bits.{bit_and-six}
use rtp_benchmarks.V3c.Types.{NalInfo, V3cUnitInfo, v3c_ad}
use rtp_benchmarks.Uvgrtp.Sender.{Event}
use rtp_benchmarks.Uvgrtp.VpccSender.{is_param_set}
use rtp_benchmarks.Uvgrtp.VpccSender.Sends.{IsInside, slice, all_nals, frame_nals, frame_byte}
use rtp_benchmarks.Uvgrtp.VpccLatencySender.{
  ad_hook, video_hook, hook_of, receive_all, nal_type_of, latency_sender_func,
}
use rtp_benchmarks.Uvgrtp.VpccLatencySender.Sends.{
  times_from, length-times_from, latency_sender_func-pushed,
}

-- The atlas NAL types that the sender takes for parameter sets and the hook does not.
abbrev reserved_byte : ℕ → Option ℕ → Bool
reserved_byte fmt none = false
reserved_byte fmt (some b) = fmt == v3c_ad && leb 32 (nal_type_of b) && leb (nal_type_of b) 34

-- The NAL unit has a first byte, and it is not one of those.
abbrev pub IsPlain : List ℕ → ℕ → NalInfo → Type 0
IsPlain cbuf fmt i = (0 < i.size) × (reserved_byte fmt (get_elem? cbuf i.location) ≡ false)

get_elem?-take : (n : ℕ) (xs : List ℕ) → 0 < n → get_elem? (take n xs) 0 ≡ get_elem? xs 0
get_elem?-take zero xs h = absurd (omega arith)
get_elem?-take (suc n) [] h = refl
get_elem?-take (suc n) (x ∷ xs) h = refl

slice-get_elem? :
    (cbuf : List ℕ) (i : NalInfo)
    → 0 < i.size
    → get_elem? (slice cbuf i) 0 ≡ get_elem? cbuf i.location
slice-get_elem? cbuf i h =
    get_elem?-take i.size (drop i.location cbuf) h
    ∙ get_elem?-drop i.location 0 i.location cbuf (omega arith)

-- Whether the hook logs a time for a first byte.
abbrev is_logged : ℕ → ℕ → Bool
is_logged fmt b =
    if fmt == v3c_ad
    then ltb (nal_type_of b) 36
    else ltb (nal_type_of b) 32 || ltb 34 (nal_type_of b)

hook_of_lem :
    (fmt b t : ℕ) (payload recv : List ℕ)
    → get_elem? payload 0 ≡ some b
    → hook_of fmt (t, payload) recv ≡ ok (if is_logged fmt b then recv ++ t ∷ [] else recv)
unfolding hook_of ad_hook video_hook
hook_of_lem fmt b t payload recv e = elim (Bool-cases (fmt == v3c_ad)) [
  | inl f ↦ rw (f, e) refl
  | inr f ↦ rw (f, e) refl
]

-- The hook logs a time for the first bytes that the sender logs one for.
is_logged_lem :
    (fmt b : ℕ)
    → reserved_byte fmt (some b) ≡ false
    → (if is_logged fmt b then 1 else 0) ≡ frame_byte fmt (some b)
unfolding is_param_set nal_type_of
is_logged_lem fmt b r = ground (arith, bit_and-six (b / 2))

length-logged :
    (c : Bool) (t : ℕ) (recv : List ℕ)
    → length (if c then recv ++ t ∷ [] else recv) ≡ length recv + (if c then 1 else 0)
length-logged true t recv = length-append recv (t ∷ [])
length-logged false t recv = omega arith

module _ (cbuf : List ℕ) (fmt : ℕ) where
  receive_all_lem :
      (nals : List NalInfo) (calls : List (ℕ × List ℕ)) (recv : List ℕ)
      → All (IsInside cbuf) nals
      → All (IsPlain cbuf fmt) nals
      → map (λ c. c.1) calls ≡ map (slice cbuf) nals
      → (recv' : List ℕ) × (receive_all fmt calls recv ≡ ok recv')
        × (length recv' ≡ length recv + frame_nals cbuf fmt nals)
  unfolding receive_all
  receive_all_lem [] [] recv a b e = (recv, refl, omega arith)
  receive_all_lem [] (c ∷ cs) recv a b e = cc
  receive_all_lem (i ∷ rest) [] recv a b e = cc
  receive_all_lem (i ∷ rest) ((t, payload) ∷ cs) recv ((h, k), a) ((p, q), b) e =
      let (byte, here) = get_elem?_of_lt cbuf i.location h in
      let same : payload ≡ slice cbuf i = cc in
      let others : map (λ c. c.1) cs ≡ map (slice cbuf) rest = ap (drop 1) e in
      let first = ap (λ l. get_elem? l 0) same ∙ slice-get_elem? cbuf i p ∙ here in
      let one = hook_of_lem fmt byte t payload recv first in
      let log = is_logged_lem fmt byte (rw here at q) in
      let next = if is_logged fmt byte then recv ++ t ∷ [] else recv in
      let grows : length next ≡ length recv + frame_nals cbuf fmt (i ∷ []) =
        omega (arith, length-logged (is_logged fmt byte) t recv, ap (frame_byte fmt) here) in
      let (recv', r, l) = receive_all_lem rest cs next a b others in (recv', rw one r, omega arith)

-- When every NAL unit of a stream lies in the file and comes back, and none of an atlas stream has a
-- type from 32 to 34, the hook logs as many times as the sender has logged for the stream.
pub receive_all-latency_sender_func :
    (cbuf : List ℕ) (fmt : ℕ) (now runtime : ℕ → ℕ) (period : ℕ) (units : List V3cUnitInfo)
    (calls : List (ℕ × List ℕ))
    → All (IsInside cbuf) (all_nals units)
    → All (IsPlain cbuf fmt) (all_nals units)
    → map (λ c. c.1) calls ≡ map (slice cbuf) (all_nals units)
    → (events : List Event) × (sent : List ℕ) × (received : List ℕ) × (latency_sender_func cbuf fmt
          now runtime period units
        ≡ ok (events, sent))
      × (receive_all fmt calls [] ≡ ok received)
      × (length received ≡ length sent)
receive_all-latency_sender_func cbuf fmt now runtime period units calls a b e =
    let n = frame_nals cbuf fmt (all_nals units) in
    let (events, runs, pushes) = latency_sender_func-pushed cbuf fmt now runtime period units a in
    let (received, r, l) = receive_all_lem cbuf fmt (all_nals units) calls [] a b e in
    (
      events,
      times_from now 0 n,
      received,
      runs,
      r,
      (let k = length-times_from now 0 n in omega arith),
    )
