-- ===== src/Sync.antt =====
-- server/sync.go and the proxies of sync/: how two peers bring a bucket in agreement.
pub mod Messages
pub mod Proxy
pub mod Initiator
pub mod Responder
pub mod Exchange
pub mod Scheduler
mod Tests
