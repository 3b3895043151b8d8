-- ===== src/Executor.antt =====
-- internal/executor: requests, their checks, the phases of a run, admission and statistics.
pub mod Types
pub mod Checks
pub mod Output
pub mod Stats
pub mod Phases
pub mod Run
pub mod Admission
