-- ===== src/Streak.antt =====
-- internal/application/user/streak.go: the current and the longest streak of days with a submission.
pub mod Count
pub mod Runs
mod Examples
