-- ===== src/Domain.antt =====
-- The types that every layer shares (src/polymarket_bot/domain).
pub mod Types
pub mod Json
pub mod Orders
pub mod Market
pub mod Decisions
