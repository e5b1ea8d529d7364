-- ===== src/Standings.antt =====
-- internal/application/contest: the ICPC standings, from stored submissions to ranked rows.
pub mod Ranking
pub mod Order
pub mod Sorting
pub mod Ranks
pub mod Table
pub mod Freeze
pub mod Rebuild
pub mod Tally
pub mod Attribution
mod Examples
