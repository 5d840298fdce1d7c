-- ===== src/Sender.antt =====
-- harness/src/sender.cpp: the parts of the sender.
pub mod Fanout
pub mod Batch
mod Tests
