-- ===== src/V3c/Receive/Collects.antt =====
-- The list of units that `copy_rtp_payload` grows, one call for each frame of a stream.
use rtp_benchmarks.Common.{
  ℕ, suc, ◌+◌, ◌*◌, ◌^◌, ◌≤◌, ◌<◌, ◌≡◌, refl, sym, ap, ◌∙◌, true, false, List, [], ◌∷◌, ◌++◌,
  append_assoc, append-nil, some, ok, ◌>>=◌, arith, length, length-append, get_last?, All,
  All-append, leb, le→leb, ◌==◌, Bool-cases, inl, inr, if◌then◌else◌, add64,
}
use rtp_benchmarks.V3c.Types.{NalInfo, V3cUnitInfo}
use rtp_benchmarks.V3c.Receive.{
  new_unit, numbered_header, set_last, start_unit, push_payload, add_payload, mark_ready,
  copy_rtp_payload,
}
use rtp_benchmarks.V3c.Write.Units.{IsHeld, block_of, total_size, total_size-append}

abbrev pub payloads : List NalInfo → List (List ℕ)
payloads [] = []
payloads (p ∷ ps) = block_of p ∷ payloads ps

-- What the units hold, in the order of the units.
abbrev pub received : List V3cUnitInfo → List (List ℕ)
received [] = []
received (u ∷ us) = payloads u.nal_infos ++ received us

-- The units are numbered from `k` on, for the stream of units of type `t`.
abbrev pub IsNumbered : ℕ → ℕ → List V3cUnitInfo → Type 0
IsNumbered t k [] = Unit {0}
IsNumbered t k (u ∷ us) = (u.header ≡ numbered_header t k) × IsNumbered t (suc k) us

-- A unit's blocks are there, and its cursor is behind them.
pub record IsUnit (u : V3cUnitInfo) : Type 0 where
  pub held : All IsHeld u.nal_infos
  pub counted : u.ptr ≡ total_size u.nal_infos

pub record IsFull (max_size : ℕ) (u : V3cUnitInfo) : Type 0 where
  pub unit : IsUnit u
  pub filled : length u.nal_infos ≡ max_size
  pub marked : u.ready ≡ true

pub record IsLast (max_size : ℕ) (u : V3cUnitInfo) : Type 0 where
  pub unit : IsUnit u
  pub room : length u.nal_infos ≤ max_size
  pub marked : u.ready ≡ (length u.nal_infos == max_size)

-- Full units, and a last one that is ready as soon as it is full; together they hold `frames`.
pub record IsCollected (t max_size : ℕ) (frames : List (List ℕ)) (units : List V3cUnitInfo)
    : Type 0 where
  pub full : List V3cUnitInfo
  pub last : V3cUnitInfo
  pub shape : units ≡ full ++ (last ∷ [])
  pub full_ok : All (IsFull max_size) full
  pub last_ok : IsLast max_size last
  pub numbered : IsNumbered t 0 units
  pub complete : received units ≡ frames

get_last?-append : (us : List V3cUnitInfo) (u : V3cUnitInfo) → get_last? (us ++ (u ∷ [])) ≡ some u
get_last?-append [] u = refl
get_last?-append (x ∷ []) u = refl
get_last?-append (x ∷ y ∷ us) u = get_last?-append (y ∷ us) u

set_last-append :
    (us : List V3cUnitInfo) (u v : V3cUnitInfo) → set_last v (us ++ (u ∷ [])) ≡ us ++ (v ∷ [])
set_last-append [] u v = refl
set_last-append (x ∷ []) u v = refl
set_last-append (x ∷ y ∷ us) u v = ap (λ l. x ∷ l) (set_last-append (y ∷ us) u v)

received-append : (us vs : List V3cUnitInfo) → received (us ++ vs) ≡ received us ++ received vs
received-append [] vs = refl
received-append (u ∷ us) vs = rw (received-append us vs, append_assoc)

payloads-append : (ps qs : List NalInfo) → payloads (ps ++ qs) ≡ payloads ps ++ payloads qs
payloads-append [] qs = refl
payloads-append (p ∷ ps) qs = ap (λ l. block_of p ∷ l) (payloads-append ps qs)

total_size_bound : (ps : List NalInfo) → All IsHeld ps → total_size ps ≤ length ps * 2 ^ 32
total_size_bound [] a = omega arith
total_size_bound (p ∷ ps) ((e, l, small), a) = omega (arith, total_size_bound ps a)

IsNumbered-append :
    (t k : ℕ) (us : List V3cUnitInfo) (u : V3cUnitInfo)
    → IsNumbered t k us
    → u.header ≡ numbered_header t (k + length us)
    → IsNumbered t k (us ++ (u ∷ []))
IsNumbered-append t k [] u n e = (ground (arith, e), tt)
IsNumbered-append t k (v ∷ us) u (h, n) e =
    (h, IsNumbered-append t (suc k) us u n (ground (arith, e)))

-- Another last unit with the same header.
IsNumbered-last :
    (t k : ℕ) (us : List V3cUnitInfo) (u v : V3cUnitInfo)
    → u.header ≡ v.header
    → IsNumbered t k (us ++ (u ∷ []))
    → IsNumbered t k (us ++ (v ∷ []))
IsNumbered-last t k [] u v e (h, n) = (sym e ∙ h, tt)
IsNumbered-last t k (w ∷ us) u v e (h, n) = (h, IsNumbered-last t (suc k) us u v e n)

numbered_header_type : (t n : ℕ) → (numbered_header t n).vuh_unit_type ≡ t
unfolding numbered_header
numbered_header_type t n = ground arith

last_type :
    (t k : ℕ) (us : List V3cUnitInfo) (u : V3cUnitInfo)
    → IsNumbered t k (us ++ (u ∷ []))
    → u.header.vuh_unit_type ≡ t
last_type t k [] u (h, n) = ap (λ x. x.vuh_unit_type) h ∙ numbered_header_type t k
last_type t k (w ∷ us) u (h, n) = last_type t (suc k) us u n

push_payload-IsUnit :
    (payload : List ℕ) (u : V3cUnitInfo)
    → IsUnit u
    → length payload < 2 ^ 32
    → length u.nal_infos < 2 ^ 31
    → IsUnit (push_payload payload u)
unfolding push_payload
push_payload-IsUnit payload u h small room =
    let bound = total_size_bound u.nal_infos h.held in
    let new : NalInfo = record { location = u.ptr; size = length payload; buf = some payload } in
    let cursor : add64 u.ptr (length payload) ≡ total_size (u.nal_infos ++ (new ∷ [])) =
      let c = h.counted in omega (arith, total_size-append u.nal_infos (new ∷ [])) in
    record {
      held = All-append IsHeld u.nal_infos (new ∷ []) h.held ((refl, refl, small), tt);
      counted = cursor;
    }

-- The last unit once it has taken a payload.
abbrev taken : ℕ → List ℕ → V3cUnitInfo → V3cUnitInfo
taken max_size payload u =
    let added = push_payload payload u in
    if length added.nal_infos == max_size then record added { ready = true } else added

length-push_payload :
    (payload : List ℕ) (u : V3cUnitInfo)
    → length (push_payload payload u).nal_infos ≡ suc (length u.nal_infos)
unfolding push_payload
length-push_payload payload u = omega (
  arith,
  length-append u.nal_infos
      (record { location = u.ptr; size = length payload; buf = some payload } ∷ []),
)

push_payload-ready : (payload : List ℕ) (u : V3cUnitInfo) → (push_payload payload u).ready ≡ u.ready
unfolding push_payload
push_payload-ready payload u = refl

taken-IsLast :
    (max_size : ℕ) (payload : List ℕ) (u : V3cUnitInfo)
    → IsLast max_size u
    → length payload < 2 ^ 32
    → max_size < 2 ^ 31
    → length u.nal_infos < max_size
    → IsLast max_size (taken max_size payload u)
taken-IsLast max_size payload u h small wide room =
    let l = length-push_payload payload u in
    let ok_unit = push_payload-IsUnit payload u h.unit small (omega arith) in
    elim (Bool-cases (length (push_payload payload u).nal_infos == max_size)) [
      | inl e ↦ rw e (record {
        unit = record { held = ok_unit.held; counted = ok_unit.counted };
        room = omega arith;
        marked = sym e;
      })
      | inr e ↦ rw e (record {
        unit = ok_unit;
        room = omega arith;
        marked = push_payload-ready payload u ∙ h.marked ∙ (ground arith);
      })
    ]

mark_last :
    (max_size : ℕ) (us : List V3cUnitInfo) (u : V3cUnitInfo)
    → mark_ready (us ++ (u ∷ [])) max_size
      ≡ ok (us ++ ((if length u.nal_infos == max_size then record u { ready = true } else u) ∷ []))
unfolding mark_ready
mark_last max_size us u = elim (Bool-cases (length u.nal_infos == max_size)) [
  | inl e ↦ rw (get_last?-append us u, e, set_last-append us u (record u { ready = true }))
  | inr e ↦ rw (get_last?-append us u, e)
]

-- The second and the third `if`, when the last unit has room.
add_step :
    (max_size : ℕ) (payload : List ℕ) (us : List V3cUnitInfo) (u : V3cUnitInfo)
    → length u.nal_infos < max_size
    → (add_payload (us ++ (u ∷ [])) max_size payload >>= (λ added. mark_ready added max_size))
      ≡ ok (us ++ (taken max_size payload u ∷ []))
unfolding add_payload
add_step max_size payload us u room =
    let fits : leb (length u.nal_infos) max_size ≡ true =
      le→leb (length u.nal_infos) max_size (omega arith) in
    rw (get_last?-append us u, fits, set_last-append us u (push_payload payload u))
      (mark_last max_size us (push_payload payload u))

-- The first `if`, on a last unit with room and on a full one.
start_open :
    (max_size : ℕ) (us : List V3cUnitInfo) (u : V3cUnitInfo)
    → length u.nal_infos < max_size
    → start_unit (us ++ (u ∷ [])) max_size ≡ ok (us ++ (u ∷ []))
unfolding start_unit
start_open max_size us u h =
    let e : (length u.nal_infos == max_size) ≡ false = ground arith in rw (get_last?-append us u, e)

start_full :
    (t max_size : ℕ) (us : List V3cUnitInfo) (u : V3cUnitInfo)
    → length u.nal_infos ≡ max_size
    → u.header.vuh_unit_type ≡ t
    → start_unit (us ++ (u ∷ [])) max_size
      ≡ ok ((us ++ (u ∷ [])) ++ (new_unit (numbered_header t (length (us ++ (u ∷ [])))) ∷ []))
unfolding start_unit
start_full t max_size us u h k =
    let e : (length u.nal_infos == max_size) ≡ true = ground arith in
    rw (get_last?-append us u, e)
      (ap
        (λ x.
          ok ((us ++ (u ∷ [])) ++ (new_unit (numbered_header x (length (us ++ (u ∷ [])))) ∷ [])))
        k)

taken-header :
    (max_size : ℕ) (payload : List ℕ) (u : V3cUnitInfo)
    → (taken max_size payload u).header ≡ u.header
unfolding push_payload
taken-header max_size payload u = ground arith

taken-payloads :
    (max_size : ℕ) (payload : List ℕ) (u : V3cUnitInfo)
    → payloads (taken max_size payload u).nal_infos ≡ payloads u.nal_infos ++ (payload ∷ [])
unfolding push_payload
taken-payloads max_size payload u =
    let added =
      payloads-append u.nal_infos
        (record { location = u.ptr; size = length payload; buf = some payload } ∷ []) in
    elim (Bool-cases (length (push_payload payload u).nal_infos == max_size)) [
      | inl e ↦ rw e added
      | inr e ↦ rw e added
    ]

module _ (t max_size : ℕ) (payload : List ℕ) (frames : List (List ℕ)) where
  -- A last unit with room, once it has taken the payload.
  taken-IsCollected :
      (us : List V3cUnitInfo) (u : V3cUnitInfo)
      → All (IsFull max_size) us
      → IsLast max_size u
      → IsNumbered t 0 (us ++ (u ∷ []))
      → received (us ++ (u ∷ [])) ≡ frames
      → length payload < 2 ^ 32
      → max_size < 2 ^ 31
      → length u.nal_infos < max_size
      → IsCollected t max_size (frames ++ (payload ∷ [])) (us ++ (taken max_size payload u ∷ []))
  taken-IsCollected us u full_ok last_ok n r small wide room = record {
    full = us;
    last = taken max_size payload u;
    shape = refl;
    full_ok = full_ok;
    last_ok = taken-IsLast max_size payload u last_ok small wide room;
    numbered =
        IsNumbered-last t 0 us u (taken max_size payload u) (sym (taken-header max_size payload u))
          n;
    complete =
        rw
          (
            received-append us (taken max_size payload u ∷ []),
            taken-payloads max_size payload u,
            sym r,
            received-append us (u ∷ []),
          )
          (simp (append_assoc, append-nil));
  }

  -- A frame with less than 2 ^ 32 bytes is taken, into a new unit when the last one is full; no
  -- access is out of bounds, and the units then hold the frames so far and this one, in order.
  pub copy_rtp_payload-IsCollected :
      (units : List V3cUnitInfo)
      → IsCollected t max_size frames units
      → 0 < max_size
      → max_size < 2 ^ 31
      → length payload < 2 ^ 32
      → (grown : List V3cUnitInfo) × (copy_rtp_payload units max_size payload ≡ ok grown)
        × IsCollected t max_size (frames ++ (payload ∷ [])) grown
  unfolding copy_rtp_payload
  copy_rtp_payload-IsCollected units c positive wide small =
      elim (Bool-cases (length c.last.nal_infos == max_size)) [
        | inl e ↦
            let filled : length c.last.nal_infos ≡ max_size = ground arith in
            let shaped : IsNumbered t 0 (c.full ++ (c.last ∷ [])) = rw (sym c.shape) c.numbered in
            let fresh : V3cUnitInfo =
              new_unit (numbered_header t (length (c.full ++ (c.last ∷ [])))) in
            let whole : received ((c.full ++ (c.last ∷ [])) ++ (fresh ∷ [])) ≡ frames =
              received-append (c.full ++ (c.last ∷ [])) (fresh ∷ [])
              ∙ append-nil _
              ∙ rw (sym c.shape) c.complete in
            (
              (c.full ++ (c.last ∷ [])) ++ (taken max_size payload fresh ∷ []),
              rw
                  (
                    c.shape,
                    start_full t max_size c.full c.last filled (last_type t 0 c.full c.last shaped),
                  )
                  (add_step max_size payload (c.full ++ (c.last ∷ [])) fresh positive),
              taken-IsCollected (c.full ++ (c.last ∷ [])) fresh
                  (All-append (IsFull max_size) c.full (c.last ∷ []) c.full_ok (
                    record {
                      unit = c.last_ok.unit;
                      filled = filled;
                      marked = c.last_ok.marked ∙ e;
                    },
                    tt,
                  ))
                  (record {
                    unit = record { held = tt; counted = refl };
                    room = omega arith;
                    marked = ground arith;
                  })
                  (IsNumbered-append t 0 (c.full ++ (c.last ∷ [])) fresh shaped
                    (ap (λ k. numbered_header t k) (omega arith)))
                  whole small wide positive,
            )
        | inr e ↦
            let room : length c.last.nal_infos < max_size =
              let m = c.last_ok.room in ground arith in
            (
              c.full ++ (taken max_size payload c.last ∷ []),
              rw (c.shape, start_open max_size c.full c.last room)
                  (add_step max_size payload c.full c.last room),
              taken-IsCollected c.full c.last c.full_ok c.last_ok (rw (sym c.shape) c.numbered)
                  (rw (sym c.shape) c.complete) small wide room,
            )
      ]
