-- ===== src/Contest.antt =====
-- internal/domain/contest: the contest aggregate, its schedule, its problems and their letters.
pub mod Settings
pub mod Aggregate
pub mod Letters
pub mod Schedule
pub mod Problems
mod Examples
