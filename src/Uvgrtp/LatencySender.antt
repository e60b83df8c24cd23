-- ===== src/Uvgrtp/LatencySender.antt =====
-- uvgrtp/latency_sender.cc: the hook that adds up the latencies of the frames that come back, by the
-- format, and the two loops that send the frames. The clock, the period and the answers to
-- `push_frame` are arguments.
pub mod Steps
pub mod Counts
pub mod Chunks
pub mod Atlas
pub mod Runs
pub mod Files
use rtp_benchmarks.Common.{
  ℕ, zero, suc, ◌+◌, ◌*◌, ◌/◌, ◌%◌, ◌≡◌, Bool, true, false, ◌||◌, ◌&&◌, List, [], ◌∷◌, ◌++◌, Option,
  none, some, Result, ok, ◌>>=◌, ltb, leb, ◌==◌, if◌then◌else◌, u8, u64, add64, length, bit_and,
}
use rtp_benchmarks.V3c.Types.{NalInfo, V3cUnitInfo, load, load_bytes}
use rtp_benchmarks.Uvgrtp.Sender.{Event, push_frame, pace}
use rtp_benchmarks.Uvgrtp.AtlasSender.{is_skipped}

-- The globals that the hook changes. `total_frames_received` is an `int`, taken to be below 2 ^ 31.
pub record Latencies : Type 0 where
  pub frames : ℕ
  pub ninters : ℕ
  pub nintras : ℕ
  pub n_non_vcl : ℕ
  pub total : ℕ
  pub total_intra : ℕ
  pub total_inter : ℕ
  pub total_frames_received : ℕ
  pub intra_recv : List ℕ
  pub inter_recv : List ℕ
  pub recv_times : List ℕ
  pub diff_times : List ℕ

abbrev pub no_latencies : Latencies
no_latencies = record {
  frames = 0;
  ninters = 0;
  nintras = 0;
  n_non_vcl = 0;
  total = 0;
  total_intra = 0;
  total_inter = 0;
  total_frames_received = 0;
  intra_recv = [];
  inter_recv = [];
  recv_times = [];
  diff_times = [];
}

-- `vvc_headers` and `atlas_enabled`, in the order in which the hook tests them.
pub data Format : Type 0 where
  vvc atlas hevc : Format

pub data FrameKind : Type 0 where
  intra inter other : FrameKind

-- One call of the hook: the payload, or none for a null pointer, what `get_diff` answers when it is
-- called, and the two times that are read for an atlas frame.
pub record Arrival : Type 0 where
  pub payload : Option (List ℕ)
  pub diff : ℕ
  pub first_time : ℕ
  pub last_time : ℕ

unfoldable pub vvc_kind : ℕ → FrameKind
vvc_kind b = let t = bit_and b 0x3f in if t == 19 then intra else if t == 1 then inter else other

unfoldable pub atlas_kind : ℕ → FrameKind
atlas_kind b =
    let nalu_t = u8 (bit_and (b / 2) 0x3f) in
    if leb nalu_t 15 then inter else if leb 16 nalu_t && leb nalu_t 29 then intra else other

unfoldable pub hevc_kind : ℕ → FrameKind
hevc_kind b =
    let nalu_t = u8 (bit_and (b / 2) 0x3f) in
    if leb nalu_t 15 then inter else if leb 16 nalu_t && leb nalu_t 23 then intra else other

-- The five lines that count an intra or an inter frame.
unfoldable pub count_frame : FrameKind → ℕ → Latencies → Latencies
count_frame other diff s = s
count_frame intra diff s = record s {
  total = add64 s.total (diff / 1000);
  total_intra = add64 s.total_intra (diff / 1000);
  nintras = add64 s.nintras 1;
  frames = add64 s.frames 1;
}
count_frame inter diff s = record s {
  total = add64 s.total (diff / 1000);
  total_inter = add64 s.total_inter (diff / 1000);
  ninters = add64 s.ninters 1;
  frames = add64 s.frames 1;
}

unfoldable pub log_atlas : FrameKind → Arrival → Latencies → Latencies
log_atlas other a s = record s {
  diff_times = s.diff_times ++ 0 ∷ [];
  recv_times = s.recv_times ++ a.last_time ∷ [];
}
log_atlas intra a s = record s {
  intra_recv = s.intra_recv ++ a.first_time ∷ [];
  diff_times = s.diff_times ++ a.diff ∷ [];
  recv_times = s.recv_times ++ a.last_time ∷ [];
}
log_atlas inter a s = record s {
  inter_recv = s.inter_recv ++ a.first_time ∷ [];
  diff_times = s.diff_times ++ a.diff ∷ [];
  recv_times = s.recv_times ++ a.last_time ∷ [];
}

unfoldable pub count_other : FrameKind → Latencies → Latencies
count_other other s = record s { n_non_vcl = add64 s.n_non_vcl 1 }
count_other intra s = s
count_other inter s = s

-- The branch of the format, on the payload.
unfoldable pub count_payload : Format → List ℕ → Arrival → Latencies → Result Latencies
count_payload vvc payload a s = do b ← load payload 2; ok (count_frame (vvc_kind b) a.diff s)
count_payload atlas payload a s = do
  b ← load payload 0
  ok (log_atlas (atlas_kind b) a (count_frame (atlas_kind b) a.diff s))
count_payload hevc payload a s = do
  b ← load payload 4
  ok (count_other (hevc_kind b) (count_frame (hevc_kind b) a.diff s))

unfoldable pub on_arrival : Option (List ℕ) → Format → Arrival → Latencies → Result Latencies
on_arrival none format a s = ok s
on_arrival (some payload) format a s = do
  s' ← count_payload format payload a s
  ok (record s' { total_frames_received = s'.total_frames_received + 1 })

unfoldable pub hook_sender : Format → Arrival → Latencies → Result Latencies
hook_sender format a s = on_arrival a.payload format a s

-- The frames that come back, one after the other.
pub hook_senders : Format → List Arrival → Latencies → Result Latencies
hook_senders format [] s = ok s
hook_senders format (a ∷ rest) s = do s' ← hook_sender format a s; hook_senders format rest s'

-- What a part of a loop has done, its state, and whether the sender goes on: it cleans up and
-- answers `EXIT_FAILURE` when a push is refused.
abbrev pub Step : Type 0 → Type 0
Step S = List Event × S × Bool

unfoldable pub and_then : {S : Type 0} → Step S → (S → Result (Step S)) → Result (Step S)
and_then (events, s, false) rest = ok (events, s, false)
and_then (events, s, true) rest = do
  (more, last, running) ← rest s
  ok (events ++ more, last, running)

-- The loop over the chunk sizes.
pub record ChunkState : Type 0 where
  pub current_frame : ℕ
  pub offset : ℕ

-- The vectors of the loop over the atlas units.
pub record AtlasState : Type 0 where
  pub frame_number : ℕ
  pub send_times : List ℕ
  pub inter_send : List ℕ
  pub intra_send : List ℕ
  pub after_send_times : List ℕ

-- The two vectors by the type of the frame, for the time `ms`.
unfoldable pub log_send : FrameKind → ℕ → AtlasState → AtlasState
log_send inter ms s = record s {
  send_times = s.send_times ++ ms ∷ [];
  inter_send = s.inter_send ++ ms ∷ [];
}
log_send intra ms s = record s {
  send_times = s.send_times ++ ms ∷ [];
  intra_send = s.intra_send ++ ms ∷ [];
}
log_send other ms s = record s { send_times = s.send_times ++ ms ∷ [] }

-- `push n` is whether the library accepts the frame number `n`; `now n` is the time read before it,
-- `after n` the time behind it and `runtime n` the time since the start that is then read.
module _ (push : ℕ → Bool) (now after runtime : ℕ → ℕ) (period : ℕ) (mem : List ℕ) where
  unfoldable pub after_chunk : Bool → List ℕ → ℕ → ChunkState → Step ChunkState
  after_chunk false payload chunk_size s = (push_frame payload ∷ [], s, false)
  after_chunk true payload chunk_size s =
      let next = u64 (s.current_frame + 1) in
      (
        push_frame payload ∷ pace period next (runtime s.current_frame),
        record { current_frame = next; offset = add64 s.offset chunk_size },
        true,
      )

  pub latency_chunk : ℕ → ChunkState → Result (Step ChunkState)
  latency_chunk chunk_size s = do
    payload ← load_bytes mem s.offset chunk_size
    ok (after_chunk (push s.current_frame) payload chunk_size s)

  pub latency_chunks : List ℕ → ChunkState → Result (Step ChunkState)
  latency_chunks [] s = ok ([], s, true)
  latency_chunks (chunk_size ∷ rest) s = do
    first ← latency_chunk chunk_size s
    and_then first (latency_chunks rest)

  unfoldable pub after_atlas : Bool → List ℕ → AtlasState → Step AtlasState
  after_atlas false payload s = (push_frame payload ∷ [], s, false)
  after_atlas true payload s =
      let next = u64 (s.frame_number + 1) in
      (
        push_frame payload ∷ pace period next (runtime s.frame_number),
        record s {
          frame_number = next;
          after_send_times = s.after_send_times ++ after s.frame_number ∷ [];
        },
        true,
      )

  pub latency_atlas_nal : NalInfo → AtlasState → Result (Step AtlasState)
  latency_atlas_nal i s = load mem i.location >>= (λ b.
      if is_skipped b
      then ok ([], s, true)
      else (load_bytes mem i.location i.size >>= (λ payload. ok (
          after_atlas (push s.frame_number) payload
            (log_send (atlas_kind b) (now s.frame_number) s)))))

  pub latency_atlas_nals : List NalInfo → AtlasState → Result (Step AtlasState)
  latency_atlas_nals [] s = ok ([], s, true)
  latency_atlas_nals (i ∷ rest) s = do
    first ← latency_atlas_nal i s
    and_then first (latency_atlas_nals rest)

  pub latency_atlas_units : List V3cUnitInfo → AtlasState → Result (Step AtlasState)
  latency_atlas_units [] s = ok ([], s, true)
  latency_atlas_units (u ∷ rest) s = do
    first ← latency_atlas_nals u.nal_infos s
    and_then first (latency_atlas_units rest)
