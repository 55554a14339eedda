-- ===== src/Postgres.antt =====
-- internal/storepg: the durable store, as tables that a transaction reads and writes.
pub mod Rows
pub mod Refunds
pub mod Intents
pub mod Inbound
pub mod Accounts
pub mod Outbound
pub mod Idempotency
pub mod Examples
