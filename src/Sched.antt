-- ===== src/Sched.antt =====
-- sched/sched.go: schedules, the chain of calls that builds a job, and the loop that runs it.
pub mod Schedule
pub mod Job
pub mod Time
pub mod Days
pub mod Chain
pub mod Waits
pub mod Runs
pub mod Overlap
mod Tests
