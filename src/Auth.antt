-- ===== src/Auth.antt =====
-- backend/src/modules/auth: sessions, their rotation, the login limiter and the permissions.
pub mod Accounts
pub mod Sessions
pub mod Families
pub mod Reuse
pub mod Histories
pub mod Spent
pub mod Limiter
pub mod Permissions
pub mod Service
pub mod Refreshes
pub mod Logout
pub mod Lockout
