-- ===== src/V3c.antt =====
-- uvgrtp/v3c_util.hh and uvgrtp/v3c_util.cc: the V3C (V-PCC) sample stream.
pub mod Types
pub mod Bytes
mod Masks
pub mod Header
pub mod Mmap
pub mod Write
pub mod Receive
pub mod RoundTrip
pub mod Samples
mod Tests
