-- ===== src/Uvgrtp.antt =====
-- uvgrtp/: the benchmarks of uvgRTP.
pub mod Sender
pub mod VpccSender
pub mod AtlasSender
pub mod VpccReceiver
pub mod VpccLatencySender
pub mod LatencySender
pub mod Echo
pub mod Receiver
pub mod SenderMain
pub mod Setup
