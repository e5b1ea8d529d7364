-- ===== src/Pool.antt =====
-- internal/adapter/judge/pool: the containers that judgings run in, and their memory budget.
-- `Containers` is the slice and its helpers, `Operations` the methods of `Pool`.
pub mod Containers
pub mod Operations
pub mod Accounts
pub mod Oldest
pub mod Budget
pub mod Evictions
pub mod Claims
pub mod Removals
pub mod Expired
pub mod Reaper
pub mod Races
mod Examples
