-- ===== src/Scheduler.antt =====
-- portal/scheduler.py: the durable scheduler of administrative tasks.
pub mod Model
pub mod Examples
pub mod Calendar
pub mod Store
pub mod Service
pub mod Execution
