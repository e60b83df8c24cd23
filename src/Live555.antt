-- ===== src/Live555.antt =====
-- live555/: the benchmarks of live555.
pub mod LatencyReceiver
pub mod Sink
pub mod StartCode
pub mod Source
pub mod LatencySender
pub mod Framed
