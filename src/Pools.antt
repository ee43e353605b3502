-- ===== src/Pools.antt =====
-- Scripts/radar/eval/pools.py: the pools of hot and near candidates, and the structure of a near one that
-- is shown. Prices are in units of $0.0001; a price that is missing or out of range is 0.
pub mod Sums
pub mod Classify
pub mod Near
pub mod Nearest
pub mod Offers
pub mod Summary
pub mod Table
pub mod Counted
pub mod Split
pub mod Pooled
pub mod Below
mod Scored
pub mod Listed
pub mod Hot
pub mod Found
mod Tests
mod DealTests
