-- ===== src/Trust.antt =====
-- The trust in community sources: src/sources/trust-policy.ts.
pub mod Policy
pub mod Qualification
pub mod Streak
pub mod Alerts
mod Examples
