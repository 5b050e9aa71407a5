-- ===== src/Portfolio/State.antt =====
-- The state of `Portfolio` (src/polymarket_bot/portfolio/portfolio.py): positions, closed trades, the
-- portfolio itself, and what it raises.
use claude_route.Base.{ℕ, ◌/◌, String, Option, List}
use claude_route.Base.Int.{ℤ}
use claude_route.Base.Dict.{Dict}

pub record Position : Type 0 where
  pub token_id : String
  pub condition_id : String
  pub outcome : String
  pub market_slug : String
  pub window_end_ms : ℕ
  pub shares : ℕ
  pub cost_basis_usd : ℕ
  pub realized_pnl_usd : ℤ
  pub fees_usd : ℕ
  pub opened_ms : ℕ
  pub entry_shares_total : ℕ
  pub entry_cost_total : ℕ

pub data ExitKind : Type 0 where
  sell settlement : ExitKind

pub record ClosedTrade : Type 0 where
  pub token_id : String
  pub condition_id : String
  pub outcome : String
  pub market_slug : String
  pub opened_ms : ℕ
  pub closed_ms : ℕ
  pub shares : ℕ
  pub cost_usd : ℕ
  pub proceeds_usd : ℤ
  pub fees_usd : ℕ
  pub pnl_usd : ℤ
  pub exit_kind : ExitKind

pub record Portfolio : Type 0 where
  pub cash_usd : ℤ
  pub start_of_day_equity_usd : ℤ
  pub peak_equity_usd : ℤ
  pub equity_usd : ℤ
  pub positions : Dict Position
  pub closed_trades : List ClosedTrade
  pub realized_pnl_usd : ℤ
  pub fees_paid_usd : ℕ
  pub consecutive_losses : ℕ
  pub last_loss_ms : Option ℕ
  pub current_day : ℕ
  pub marks : Dict ℕ
  pub risk_equity_usd : ℤ

pub data InvariantError : Type 0 where
  costs_more_than_cash sells_more_than_held : InvariantError

abbrev pub day : ℕ → ℕ
day ms = ms / 86_400_000
