-- ===== src/Services.antt =====
-- services/run, services/stop and services/scheduling: what a person's commands do to a run.
pub mod Schedule
pub mod Release
pub mod Commands
