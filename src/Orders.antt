-- ===== src/Orders.antt =====
-- Scripts/executor/builders.py: the orders that are built for a leg.
pub mod Sx
pub mod Poly
mod Tests
