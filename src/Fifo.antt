-- ===== src/Fifo.antt =====
-- Batches of FIFO queues: src/sqs-fifo-batch.ts.
pub mod Batch
pub mod Schedules
pub mod InOrder
mod Examples
