-- ===== src/Cron.antt =====
-- cron/cron.go: the list of jobs, and what creates, deletes, updates and starts them.
pub mod Job
pub mod Update
pub mod Round
pub mod Running
mod Tests
