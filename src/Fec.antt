-- ===== src/Fec.antt =====
-- harness/include/fec.h: forward error correction of generations of frames.
pub mod Field
pub mod Envelope
pub mod Encoder
pub mod Solve
pub mod Decoder
pub mod Stats
pub mod Recovery
mod Tests
