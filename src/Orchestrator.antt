-- ===== src/Orchestrator.antt =====
-- internal/orchestrator: fee math, least-cost selection, and the gateway that routes by it.
pub mod OrderId
pub mod Router
pub mod Routed
pub mod Examples
