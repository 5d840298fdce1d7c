-- ===== src/Fec/Recovery.antt =====
-- harness/include/fec.h: the encoder's parity rows against the system that the decoder builds.
pub mod Coefficients
pub mod Indices
pub mod Parity
pub mod System
pub mod Blocks
pub mod Frames
pub mod Recovered
