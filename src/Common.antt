-- ===== src/Common.antt =====
-- backend/src/common: what every request passes.
pub mod RateLimit
pub mod Alone
pub mod Windows
pub mod Responses
pub mod Idempotency
pub mod Stored
pub mod Once
