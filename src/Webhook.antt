-- ===== src/Webhook.antt =====
-- internal/webhook: the signature of outbound events, and their delivery.
pub mod Signer
pub mod Deliverer
pub mod Durable
pub mod Examples
