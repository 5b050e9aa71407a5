-- ===== src/Risk.antt =====
-- The risk layer (src/polymarket_bot/risk and config/risk_policy.py).
pub mod Ticks
pub mod Policy
pub mod Views
pub mod Loss
pub mod Sizing
pub mod Entry
pub mod Exit
pub mod Rates
mod Tests
