-- ===== src/Audit.antt =====
-- The audit poller: services/lifecycle-cron/app/audit_poller.py.
pub mod Query
pub mod Window
pub mod Chunks
pub mod Waited
pub mod Covered
pub mod Delivered
pub mod Frame
pub mod Stuck
pub mod Resumed
mod Tests
