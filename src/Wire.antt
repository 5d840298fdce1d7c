-- ===== src/Wire.antt =====
-- harness/include/wire.h: the Writer and the Reader of the network format.
pub mod Codec
pub mod Fields
pub mod Frame
