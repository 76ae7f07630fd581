-- ===== src/Dlq.antt =====
-- Repairs of dead-letter queues: cloudflare/dlq-operations.ts.
pub mod Plan
pub mod Message
pub mod Apply
pub mod Counts
pub mod Once
pub mod Attempts
pub mod ExactlyOnce
pub mod Make
pub mod New
mod Examples
