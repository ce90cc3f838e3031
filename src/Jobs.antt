-- ===== src/Jobs.antt =====
-- jobs/: background jobs, their table and the service that moves them through their life.
pub mod Model
pub mod Repository
pub mod Service
pub mod Moves
pub mod Refines
pub mod Calls
pub mod Lifecycle
pub mod Invariant
pub mod Recovery
pub mod Outcomes
