-- ===== src/Live555/Source/Queues.antt =====
-- A source of NAL units as a queue, without a file, and runs of calls of `deliverFrame`.
use rtp_benchmarks.Common.{
  ℕ, ◌+◌, ◌-◌, Bool, List, [], ◌∷◌, Result, ok, ◌>>=◌, length, take, ltb, if◌then◌else◌, min,
}
use rtp_benchmarks.Uvgrtp.Sender.{pace}
use rtp_benchmarks.Live555.Source.{
  SourceState, Delivery, ignored, exit_success, delivered, deliver_frame,
}

-- A call of `deliverFrame`: whether live555 awaits data, the time, and the room that it has.
pub record Call : Type 0 where
  pub awaiting : Bool
  pub runtime : ℕ
  pub max_size : ℕ

-- The NAL units that are left, how many frames have been given, and how many bytes.
pub record Queue : Type 0 where
  pub nals : List (List ℕ)
  pub frames : ℕ
  pub sent : ℕ

module _ (period : ℕ) where
  -- The first NAL unit leaves the queue; the queue is empty at the end.
  abbrev pub pop : ℕ → ℕ → List (List ℕ) → ℕ → ℕ → Delivery × Queue
  pop runtime max_size [] frames sent =
      (exit_success sent, record { nals = []; frames = frames; sent = sent })
  pop runtime max_size (nal ∷ nals) frames sent = (
    delivered (pace period frames runtime) (min max_size (length nal)) (length nal - max_size)
        (take max_size nal),
    record {
      nals = nals;
      frames = if ltb 1500 (length nal) then frames + 1 else frames;
      sent = sent + length nal;
    },
  )

  abbrev pub serve : Call → Queue → Delivery × Queue
  serve call q =
      if call.awaiting then pop call.runtime call.max_size q.nals q.frames q.sent else (ignored, q)

-- Nothing is called after the end of the program.
abbrev pub behind : Delivery → List Delivery → List Delivery
behind ignored later = ignored ∷ later
behind (exit_success bytes) later = exit_success bytes ∷ []
behind (delivered waits size truncated payload) later =
    delivered waits size truncated payload ∷ later

abbrev pub serve_all : ℕ → List Call → Queue → List Delivery
serve_all period [] q = []
serve_all period (call ∷ calls) q =
    let rest = serve_all period calls (serve period call q).1 in behind (serve period call q).0 rest

abbrev pub deliver_all : ℕ → List ℕ → ℕ → List Call → SourceState → Result (List Delivery)
deliver_all base mem period [] s = ok []
deliver_all base mem period (call ∷ calls) s =
    deliver_frame base mem period call.awaiting call.runtime call.max_size s
    >>= (λ (d, t). deliver_all base mem period calls t >>= (λ later. ok (behind d later)))
