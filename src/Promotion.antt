-- ===== src/Promotion.antt =====
-- The way to live trading (src/polymarket_bot/promotion).
pub mod Gates
pub mod LiveLock
mod Tests
