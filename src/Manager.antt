-- ===== src/Manager.antt =====
-- The task manager, src/core.
pub mod Task
pub mod TaskFile
pub mod Scheduler
pub mod Control
mod Tests
