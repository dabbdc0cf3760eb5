-- ===== src/Storage.antt =====
-- The stores: PostgreSQL, ClickHouse, and the store in memory.
pub mod Events
pub mod Idempotency
pub mod Memory
pub mod Analytics
pub mod Querier
