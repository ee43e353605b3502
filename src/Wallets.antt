-- ===== src/Wallets.antt =====
-- Scripts/wallets: the pool of bot wallets, the assignment of legs to them and the rebalancing.
mod Defs
pub mod Coordinator
pub mod Rebalance
mod Tests
pub use Defs.*
