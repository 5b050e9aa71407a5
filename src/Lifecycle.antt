-- ===== src/Lifecycle.antt =====
-- The bot's lifecycle (src/polymarket_bot/lifecycle).
pub mod Machine
pub mod KillSwitch
pub mod Journal
