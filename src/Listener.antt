-- ===== src/Listener.antt =====
-- packages/listener: the self-hosted payment listener.
pub mod Errors
pub mod Types
pub mod Storage
pub mod Sqlite
pub mod Bulk
pub mod Quorum
pub mod Chains
pub mod Watcher
pub mod InvoiceCore
pub mod Dispatcher
pub mod RateLimit
pub mod BaseWatcher
pub mod BtcListener
pub mod Pricing
pub mod Nonce
