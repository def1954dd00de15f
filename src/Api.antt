-- ===== src/Api.antt =====
-- packages/api/src: the hosted payments API.
pub mod Errors
pub mod Refunds
pub mod Velocity
pub mod Subscriptions
