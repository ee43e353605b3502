-- ===== src/Cross.antt =====
-- Scripts/event_matching.py and Scripts/cross_platform.py: arbs between two exchanges.
pub mod Match
pub mod Pairs
pub mod Once
pub mod Outcomes
pub mod Build
pub mod Cover
pub mod Sound
pub mod Radar
pub mod Profit
mod Tests
