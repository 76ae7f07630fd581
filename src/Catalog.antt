-- ===== src/Catalog.antt =====
-- The catalog of internships, made from the snapshots of the sources: src/ingestion, src/identity.
pub mod Types
pub mod Occurrence
pub mod References
pub mod Describe
pub mod Job
pub mod Plan
pub mod Listing
pub mod Reconcile
pub mod Induction
pub mod Announced
pub mod Sound
pub mod Linked
pub mod Listed
pub mod Closing
pub mod Omissions
pub mod Attached
pub mod Known
pub mod Groups
pub mod Places
pub mod Partition
mod Examples
mod GroupExamples
