-- ===== src/Risk.antt =====
-- Scripts/risk: the limits that gate every fire, the kill switch, the network check and the
-- reconciliation of positions.
pub mod State
pub mod Killswitch
pub mod Network
pub mod Limits
pub mod Reconcile
pub mod Tests
