-- ===== src/Live555/LatencyReceiver.antt =====
-- live555/latency_receiver.cc: each frame that the sink receives is given to a source that sends it
-- back; the mutex `lat_mtx` is open while a received frame waits for the source. One thread does all of
-- this, so the calls follow each other. When live555 calls, whether the source awaits data, and the room
-- it has, are arguments. The sink's buffer keeps a frame until the next one is received. Undefined are
-- `unlock` of an open mutex and `try_lock` of one that the calling thread has locked, as it always has
-- when it is locked.
pub mod Echoes
use rtp_benchmarks.Common.{
  ℕ, ◌+◌, ◌-◌, Bool, true, false, not, ◌||◌, List, [], ◌∷◌, Option, none, some, Result, ok, err,
  Fault, ◌>>=◌, length, take, ltb, ◌==◌, if◌then◌else◌, u32, u64, add64,
}
use rtp_benchmarks.Live555.Source.{frame_sizes}

-- The globals: whether the mutex is locked, the bytes that `nal_ptr` and `nal_size` give, and the
-- two counters.
pub record EchoState : Type 0 where
  pub locked : Bool
  pub nal : List ℕ
  pub frames : ℕ
  pub bytes : ℕ

-- `receiver` locks the mutex first.
abbrev pub initial_state : EchoState
initial_state = record { locked = true; nal = []; frames = 0; bytes = 0 }

-- `fFrameSize`, `fNumTruncatedBytes`, and the bytes at `fTo`.
pub record Frame : Type 0 where
  pub frame_size : ℕ
  pub truncated : ℕ
  pub payload : List ℕ

-- What `deliverFrame` gives to live555 from the bytes `nal`.
unfoldable pub frame_of : ℕ → List ℕ → Frame
frame_of max_size nal =
    let (size, cut) = frame_sizes (u32 (length nal)) max_size in
    record { frame_size = size; truncated = cut; payload = take size nal }

-- `deliverFrame`: the frame, if any, in front of what was delivered behind it.
unfoldable pub deliver_frame : Bool → ℕ → EchoState → Result (Option Frame × EchoState)
deliver_frame awaiting max_size s =
    if not awaiting
    then ok (none, s)
    else if s.locked
    then err Fault.bad_access
    else ok (
      some (frame_of max_size s.nal),
      record s { locked = true; bytes = add64 s.bytes (u32 (length s.nal)) },
    )

-- `lat_mtx.unlock()`.
unfoldable pub unlock : EchoState → Result EchoState
unlock s = if s.locked then ok (record s { locked = false }) else err Fault.bad_access

-- It goes on, or `exit(EXIT_SUCCESS)` follows, behind a line with the two counters.
pub data Outcome : Type 0 where
  playing exit_success : Option Frame → EchoState → Outcome

-- `++frames == 602`.
unfoldable pub count_frame : Option Frame × EchoState → Outcome
count_frame (sent, s) =
    let s' : EchoState = record s { frames = u64 (s.frames + 1) } in
    if s'.frames == 602 then exit_success sent s' else playing sent s'

-- `afterGettingFrame`, on the frame that stands in the sink's buffer.
unfoldable pub after_getting_frame : List ℕ → Bool → ℕ → EchoState → Result Outcome
after_getting_frame received awaiting max_size s = do
  unlocked ← unlock (record s { nal = received })
  sent ← deliver_frame awaiting max_size unlocked
  ok (count_frame sent)

-- The calls of live555: the sink has received a frame, or the source is asked for one.
pub data Call : Type 0 where
  received : List ℕ → Bool → ℕ → Call
  asked : Bool → ℕ → Call

unfoldable pub on_call : Call → EchoState → Result Outcome
on_call (received nal awaiting max_size) s = after_getting_frame nal awaiting max_size s
on_call (asked awaiting max_size) s =
    deliver_frame awaiting max_size s >>= (λ (sent, t). ok (playing sent t))
