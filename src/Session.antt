-- ===== src/Session.antt =====
-- src/application-automation.ts: the session of an assisted job application.
pub mod Digest
pub mod Machine
pub mod Request
pub mod Store
pub mod Invariant
pub mod Traces
pub mod Progress
pub mod Api
mod Examples
