-- ===== src/Adapters.antt =====
-- internal/adapters: the status maps of the gateways and how their callbacks are verified and read.
pub mod Status
pub mod Callbacks
pub mod Doku
pub mod Midtrans
pub mod Verified
pub mod Order
pub mod Examples
