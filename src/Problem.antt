-- ===== src/Problem.antt =====
-- Problems: internal/domain/problem, and the use cases of internal/application/problem that edit,
-- validate and publish a problem.
pub mod Aggregate
pub mod Tickets
pub mod Store
pub mod Publishing
pub mod Reports
pub mod Fields
pub mod Editing
pub mod Files
pub mod Uploads
pub mod Orderly
pub mod Completeness
pub mod Closings
pub mod Validating
pub mod Updating
pub mod Runs
pub mod Edits
pub mod Opens
pub mod Requests
pub mod Sound
pub mod Staging
pub mod Steps
pub mod Begins
pub mod Safe
pub mod Complete
pub mod Ends
pub mod Swept
pub mod Stuck
pub mod Lost
pub mod Modifiers
pub mod Overrides
pub mod Rollbacks
pub mod Samples
mod Examples
pub mod Checks
pub mod Worker
