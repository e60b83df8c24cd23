-- ===== src/Util.antt =====
-- util/: what the benchmarks of all libraries share, and the program that makes the test files.
pub mod Chunks
pub mod Files
pub mod Names
pub mod FrameStart
