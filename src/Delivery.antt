-- ===== src/Delivery.antt =====
-- src/notifications.ts, src/store.ts: the delivery of push notifications and its receipts.
pub mod Receipt
pub mod Send
pub mod Retry
pub mod Bounds
pub mod AtMost
pub mod Run
mod Examples
pub mod Loop
