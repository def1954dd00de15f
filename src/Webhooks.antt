-- ===== src/Webhooks.antt =====
-- Webhooks from end to end: what the listener's dispatcher signs, and what the receiver and the SDK
-- take.
pub mod Headers
pub mod Receiver
pub mod Server
pub mod Sdk
mod Digits
pub mod Accepted
pub mod Replay
mod Tests
