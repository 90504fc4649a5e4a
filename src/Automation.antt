-- ===== src/Automation.antt =====
-- src/automation/processors: the scheduled jobs.
pub mod FineCalculation
pub mod Reminders
pub mod Runs
