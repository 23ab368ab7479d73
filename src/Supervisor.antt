-- ===== src/Supervisor.antt =====
-- supervisor/: the process lifecycle service, and the health that is derived from its evidence.
pub mod Models
pub mod Health
pub mod Examples
pub mod Process
pub mod Lifecycle
pub mod Start
pub mod Stop
pub mod Operate
pub mod Startup
