-- ===== src/Recovery.antt =====
-- services/recovery: a failed node is examined by a recovery agent, whose decision is recorded.
pub mod Nodes
pub mod Scan
pub mod Backoff
pub mod Dispatch
pub mod Service
pub mod Choice
pub mod GivenUp
pub mod OneSession
pub mod Attempts
