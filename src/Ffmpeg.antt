-- ===== src/Ffmpeg.antt =====
-- ffmpeg/: the benchmarks of libavformat.
pub mod LatencySender
pub mod Sender
pub mod Receiver
