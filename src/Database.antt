-- ===== src/Database.antt =====
-- The wrapper around the D1 database: cloudflare/resilient-d1.ts.
pub mod Retry
pub mod Settles
mod Examples
