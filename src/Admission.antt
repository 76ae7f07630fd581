-- ===== src/Admission.antt =====
-- src/catalog-admission.ts: whether a posting is admitted to the catalog and to the alerts.
pub mod Evidence
pub mod Metadata
pub mod Evaluate
pub mod Deadlines
pub mod Derive
pub mod Grouping
pub mod Pairs
pub mod Canonical
pub mod Grace
pub mod Sound
mod Examples
