-- ===== src/Outbox.antt =====
-- backend/src/modules/security-events: the transactional outbox of security events.
pub mod Alerts
pub mod Repository
pub mod Replay
pub mod Flush
pub mod Leases
pub mod Deliveries
pub mod Attempts
pub mod Scope
