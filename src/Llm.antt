-- ===== src/Llm.antt =====
-- The review of candidates by Claude (src/polymarket_bot/llm/).
pub mod Budget
pub mod Limits
pub mod Reviewer
pub mod Verdicts
pub mod Tighten
mod Tests
