-- ===== src/Portal.antt =====
-- portal/: the authorization that its services share, and the operations on running bots.
pub mod Authorization
pub mod Locks
pub mod Operations
pub mod Examples
pub mod Sessions
pub mod Limiter
pub mod Identities
pub mod Resources
pub mod Backups
pub mod Management
