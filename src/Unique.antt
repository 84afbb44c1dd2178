-- ===== src/Unique.antt =====
-- sutils/unique.go: duplicates taken out of a sorted slice.
pub mod Front
pub mod Runs
pub mod Checked
mod Tests
