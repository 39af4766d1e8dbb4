-- ===== src/Automation.antt =====
-- The automation pack: packages/automation/src/index.ts.
pub mod Trigger
pub mod Sqlite
pub mod Scheduler
