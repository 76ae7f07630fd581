-- ===== src/Identity.antt =====
-- The identity of a posting: src/identity.
pub mod Posting
pub mod Evidence
pub mod Decision
pub mod Conflicts
pub mod Registry
pub mod Outcome
pub mod Claims
pub mod Agree
pub mod Replay
pub mod Aliases
pub mod Settled
mod Examples
