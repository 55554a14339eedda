-- ===== src/Server.antt =====
-- internal/server: the resources as Stripe objects and the handling of gateway notifications.
pub mod Objects
pub mod Intents
pub mod Forms
pub mod Refunds
pub mod Http
pub mod Idempotency
pub mod Events
pub mod Examples
