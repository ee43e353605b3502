-- ===== src/Deals.antt =====
-- Scripts/radar: how a deal is priced and sized.
pub mod Build
pub mod Series
pub mod Overlap
pub mod Markets
pub mod Poly
pub mod Limitless
pub mod Kalshi
pub mod SxBet
mod Tests
