-- ===== src/Store.antt =====
-- internal/store: the records of the facade (memory.go) and the in-memory store over them.
pub mod Types
pub mod Memory
pub mod Queue
pub mod Catalog
pub mod Invariant
pub mod Examples
