-- ===== src/Cloud.antt =====
-- packages/cloud/src: the hosted service.
pub mod NetGuard
pub mod Plans
pub mod Billing
