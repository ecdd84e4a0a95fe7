-- ===== src/Store.antt =====
-- The stores, src/store.
pub mod Payload
pub mod Files
pub mod Tasks
mod Tests
