-- ===== src/Domain/Decisions.antt =====
-- The decision objects of src/polymarket_bot/domain/decisions.py. The text behind a check, the
-- reasons of a decision, and the names of the policy, the candidate and the version that it carries
-- are for readers of the log, and are left out.
use claude_route.Base.{ℕ, String, Bool, Option, List}
use claude_route.Domain.Types.{Side, OrderPurpose}

pub record RiskCheck : Type 0 where
  pub name : String
  pub passed : Bool

pub record RiskDecision : Type 0 where
  pub decision_id : String
  pub allowed : Bool
  pub checks : List RiskCheck
  pub purpose : OrderPurpose
  pub side : Side
  pub token_id : String
  pub condition_id : String
  pub max_size_usd : ℕ
  pub max_shares : ℕ
  pub limit_price : ℕ
  pub timestamp_ms : ℕ

-- Why the exit engine wants to close (part of) a position.
pub record ExitSignal : Type 0 where
  pub token_id : String
  pub condition_id : String
  pub shares : ℕ
  pub min_price : Option ℕ
  pub timestamp_ms : ℕ
