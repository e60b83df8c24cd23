-- ===== src/Live555/LatencyReceiver/Echoes.antt =====
-- live555/latency_receiver.cc as a place for one frame.
use rtp_benchmarks.Common.{
  ℕ, suc, ◌+◌, ◌^◌, ◌<◌, ◌-◌, ◌≡◌, refl, Bool, true, false, min, take, List, [], ◌∷◌, Option, none,
  some, Result, ok, err, Fault, ◌>>=◌, arith, length, ◌==◌, u32, u64, add64,
}
use rtp_benchmarks.Live555.Source.Bounds.{frame_sizes-min}
use rtp_benchmarks.Live555.LatencyReceiver.{
  EchoState, initial_state, Frame, frame_of, deliver_frame, unlock, Outcome, playing, exit_success,
  count_frame, after_getting_frame, Call, received, asked, on_call,
}

abbrev pub add_frame : Option Frame → List Frame → List Frame
add_frame none later = later
add_frame (some frame) later = frame ∷ later

-- The rest of a run, unless the program ends.
abbrev pub behind :
    Outcome → (EchoState → Result (List Frame × EchoState)) → Result (List Frame × EchoState)
behind (exit_success sent t) next = ok (add_frame sent [], t)
behind (playing sent t) next = next t >>= (λ (later, last). ok (add_frame sent later, last))

-- Calls until the program ends, with the frames that are sent back.
abbrev pub on_calls : List Call → EchoState → Result (List Frame × EchoState)
on_calls [] s = ok ([], s)
on_calls (call ∷ calls) s = on_call call s >>= (λ out. behind out (on_calls calls))

-- The frame that waits.
abbrev pub shows : Bool → List ℕ → Option (List ℕ)
shows true nal = none
shows false nal = some nal

-- No frame is received while another one waits, and none is asked for while none waits.
abbrev pub is_served : Option (List ℕ) → List Call → Bool
is_served place [] = true
is_served none (received nal true max_size ∷ calls) = is_served none calls
is_served none (received nal false max_size ∷ calls) = is_served (some nal) calls
is_served (some waiting) (received nal awaiting max_size ∷ calls) = false
is_served place (asked false max_size ∷ calls) = is_served place calls
is_served none (asked true max_size ∷ calls) = false
is_served (some waiting) (asked true max_size ∷ calls) = is_served none calls

-- As many of the bytes as there is room for, and the number of the others.
abbrev pub cut_frame : ℕ → List ℕ → Frame
cut_frame max_size nal = record {
  frame_size = min max_size (u32 (length nal));
  truncated = u32 (length nal) - max_size;
  payload = take (min max_size (u32 (length nal))) nal;
}

frame_of_lem : (max_size : ℕ) (nal : List ℕ) → frame_of max_size nal ≡ cut_frame max_size nal
unfolding frame_of
frame_of_lem max_size nal = rw (frame_sizes-min (u32 (length nal)) max_size) refl

-- A place for one frame: it is sent when it is received, or the next time that it is asked for.
abbrev pub echo : Option (List ℕ) → List Call → List Frame
echo place [] = []
echo place (received nal true max_size ∷ calls) = cut_frame max_size nal ∷ echo none calls
echo place (received nal false max_size ∷ calls) = echo (some nal) calls
echo place (asked false max_size ∷ calls) = echo place calls
echo none (asked true max_size ∷ calls) = []
echo (some nal) (asked true max_size ∷ calls) = cut_frame max_size nal ∷ echo none calls

abbrev pub receptions : List Call → ℕ
receptions [] = 0
receptions (received nal awaiting max_size ∷ calls) = suc (receptions calls)
receptions (asked awaiting max_size ∷ calls) = receptions calls

-- The sizes of the frames that are sent, each an `unsigned`.
abbrev pub sent_bytes : Option (List ℕ) → List Call → ℕ
sent_bytes place [] = 0
sent_bytes place (received nal true max_size ∷ calls) = u32 (length nal) + sent_bytes none calls
sent_bytes place (received nal false max_size ∷ calls) = sent_bytes (some nal) calls
sent_bytes place (asked false max_size ∷ calls) = sent_bytes place calls
sent_bytes none (asked true max_size ∷ calls) = sent_bytes none calls
sent_bytes (some nal) (asked true max_size ∷ calls) = u32 (length nal) + sent_bytes none calls

-- A run that sends these frames, and counts so many more frames and bytes.
abbrev IsEchoed : List Call → EchoState → List Frame → ℕ → ℕ → Type 0
IsEchoed calls s frames n size =
    (t : EchoState) × (on_calls calls s ≡ ok (frames, t))
    × (t.frames ≡ s.frames + n)
    × (t.bytes ≡ s.bytes + size)

abbrev state : Bool → List ℕ → ℕ → ℕ → EchoState
state locked nal f b = record { locked = locked; nal = nal; frames = f; bytes = b }

-- A received frame that waits.
hold :
    (next nal : List ℕ) (max_size f b : ℕ)
    → f + 1 < 602
    → on_call (received next false max_size) (state true nal f b)
      ≡ ok (playing none (state false next (f + 1) b))
unfolding on_call after_getting_frame unlock count_frame deliver_frame
hold next nal max_size f b h =
    let count : u64 (f + 1) ≡ f + 1 = omega arith in
    let going : (f + 1 == 602) ≡ false = ground arith in rw count (rw going refl)

-- A received frame that is sent back at once.
pass :
    (next nal : List ℕ) (max_size f b : ℕ)
    → f + 1 < 602
    → b + u32 (length next) < 2 ^ 64
    → on_call (received next true max_size) (state true nal f b)
      ≡ ok (
          playing
            (some (cut_frame max_size next))
            (state true next (f + 1) (b + u32 (length next))))
unfolding on_call after_getting_frame unlock count_frame deliver_frame
pass next nal max_size f b h k =
    let count : u64 (f + 1) ≡ f + 1 = omega arith in
    let going : (f + 1 == 602) ≡ false = ground arith in
    let sum : add64 b (u32 (length next)) ≡ b + u32 (length next) = omega arith in
    rw (count, frame_of_lem max_size next) (rw (going, sum) refl)

-- A question that nothing answers: live555 awaits nothing.
unanswered :
    (locked : Bool) (nal : List ℕ) (max_size f b : ℕ)
    → on_call (asked false max_size) (state locked nal f b)
      ≡ ok (playing none (state locked nal f b))
unfolding on_call deliver_frame
unanswered locked nal max_size f b = refl

-- A question while no frame waits.
relocked :
    (nal : List ℕ) (max_size f b : ℕ)
    → on_call (asked true max_size) (state true nal f b) ≡ err Fault.bad_access
unfolding on_call deliver_frame
relocked nal max_size f b = refl

-- A waiting frame that is asked for.
answered :
    (nal : List ℕ) (max_size f b : ℕ)
    → b + u32 (length nal) < 2 ^ 64
    → on_call (asked true max_size) (state false nal f b)
      ≡ ok (playing (some (cut_frame max_size nal)) (state true nal f (b + u32 (length nal))))
unfolding on_call deliver_frame
answered nal max_size f b k =
    let sum : add64 b (u32 (length nal)) ≡ b + u32 (length nal) = omega arith in
    rw (sum, frame_of_lem max_size nal) refl

-- A frame that is received while another one waits.
occupied :
    (next : List ℕ) (awaiting : Bool) (nal : List ℕ) (max_size f b : ℕ)
    → on_call (received next awaiting max_size) (state false nal f b) ≡ err Fault.bad_access
unfolding on_call after_getting_frame unlock
occupied next awaiting nal max_size f b = refl

unlock_twice :
    (calls : List Call) (locked : Bool) (nal : List ℕ) (f b : ℕ)
    → is_served (shows locked nal) calls ≡ false
    → f + receptions calls < 602
    → b + sent_bytes (shows locked nal) calls < 2 ^ 64
    → on_calls calls (state locked nal f b) ≡ err Fault.bad_access
unlock_twice [] locked nal f b h l m = absurd (ground arith)
unlock_twice (received next true max_size ∷ calls) true nal f b h l m =
    let step = pass next nal max_size f b (omega arith) (omega arith) in
    rw
      (
        step,
        unlock_twice calls true next (f + 1) (b + u32 (length next)) h (omega arith) (omega arith),
      )
      refl
unlock_twice (received next false max_size ∷ calls) true nal f b h l m =
    let step = hold next nal max_size f b (omega arith) in
    rw (step, unlock_twice calls false next (f + 1) b h (omega arith) (omega arith)) refl
unlock_twice (received next awaiting max_size ∷ calls) false nal f b h l m =
    rw (occupied next awaiting nal max_size f b) refl
unlock_twice (asked false max_size ∷ calls) locked nal f b h l m =
    let step = unanswered locked nal max_size f b in
    rw (step, unlock_twice calls locked nal f b h l m) refl
unlock_twice (asked true max_size ∷ calls) true nal f b h l m = rw (relocked nal max_size f b) refl
unlock_twice (asked true max_size ∷ calls) false nal f b h l m =
    let step = answered nal max_size f b (omega arith) in
    rw (step, unlock_twice calls true nal f (b + u32 (length nal)) h (omega arith) (omega arith))
      refl

-- A frame that is received while another one waits opens the mutex a second time, and a question of a
-- source that awaits data while no frame waits tries to lock it a second time: behind fewer than 602
-- frames each sequence of calls with one of these two ends in an undefined step.
pub on_calls-unlock :
    (calls : List Call)
    → is_served none calls ≡ false
    → receptions calls < 602
    → sent_bytes none calls < 2 ^ 64
    → on_calls calls initial_state ≡ err Fault.bad_access
on_calls-unlock calls h l m = unlock_twice calls true [] 0 0 h (omega arith) (omega arith)
