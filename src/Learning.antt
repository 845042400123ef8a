-- ===== src/Learning.antt =====
-- services/learning: the lock of extraction sessions, and their dispatch.
pub mod Lines
pub mod Lock
pub mod Dispatch
