-- ===== src/Executor.antt =====
-- Scripts/executor: how one arb is fired, which wallets its legs get, and how a broken arb is found
-- and reverted.
pub mod Assign
pub mod Legs
pub mod Fire
pub mod Presign
mod Tests
