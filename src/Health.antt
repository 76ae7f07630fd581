-- ===== src/Health.antt =====
-- src/source-health.ts, src/sources/source-error.ts: the health of a source after each poll.
pub mod Failure
pub mod Record
pub mod History
pub mod Quarantine
pub mod Runs
pub mod Backoff
mod Examples
pub mod Outcome
