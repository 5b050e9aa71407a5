-- ===== src/Risk/Views.antt =====
-- The values that the risk engine is asked with: the views of src/polymarket_bot/risk/engine.py, the
-- snapshot of domain/snapshot.py and the candidate of domain/decisions.py, with the fields that the
-- checks read. USD amounts that may be negative are signed. A float counts units of 2^-1074, of which
-- every finite double is a multiple; ages and times are in milliseconds.
use claude_route.Base.{
  ℕ, ◌+◌, String, Bool, ◌&&◌, Option, none, some, List, [], ◌∷◌, str_eq, is_empty, if◌then◌else◌,
}
use claude_route.Base.Int.{ℤ, ◌-ℤ◌}
use claude_route.Base.Dict.{Dict}
use claude_route.Domain.Types.{Side, TradingMode, BotState}
use claude_route.Domain.Market.{MarketDefinition}

pub record PositionView : Type 0 where
  pub token_id : String
  pub condition_id : String
  pub shares : ℕ
  pub cost_basis_usd : ℕ

pub record PortfolioView : Type 0 where
  pub cash_usd : ℤ
  pub equity_usd : ℤ
  pub start_of_day_equity_usd : ℤ
  pub peak_equity_usd : ℤ
  pub positions : Dict PositionView
  pub pending_buy_usd : ℕ
  pub pending_sell_shares : Dict ℕ
  pub consecutive_losses : ℕ
  pub last_loss_ms : Option ℕ

unfoldable pub daily_pnl_usd : PortfolioView → ℤ
daily_pnl_usd f = f.equity_usd -ℤ f.start_of_day_equity_usd

abbrev pub cost_of_positions : Dict PositionView → ℕ
cost_of_positions [] = 0
cost_of_positions (e ∷ ps) = e.1.cost_basis_usd + cost_of_positions ps

-- `PortfolioView.exposure_usd`
unfoldable pub exposure_usd : PortfolioView → ℕ
exposure_usd f = cost_of_positions f.positions + f.pending_buy_usd

pub record HealthView : Type 0 where
  pub market_stream_ok : Bool
  pub reference_stream_ok : Bool
  pub clock_drift_ms : Option ℤ
  pub last_reconciliation_ms : Option ℕ
  pub last_reconciliation_ok : Bool
  pub watchdog_ok : Bool
  pub unknown_orders : ℕ
  pub in_flight_orders : ℕ
  pub in_flight_tokens : List String

pub record RateView : Type 0 where
  pub submissions_last_minute : ℕ
  pub submissions_last_hour : ℕ
  pub submissions_last_day : ℕ
  pub exits_last_minute : ℕ
  pub last_submit_ms_by_market : Dict ℕ

-- The multiplier counts 0.000001.
pub record EntryContext : Type 0 where
  pub mode : TradingMode
  pub bot_state : BotState
  pub kill_switch_engaged : Bool
  pub resolution_valid : Bool
  pub portfolio : PortfolioView
  pub health : HealthView
  pub rates : RateView
  pub max_in_flight_orders : ℕ
  pub llm_size_multiplier : ℤ

pub record ExitContext : Type 0 where
  pub mode : TradingMode
  pub bot_state : BotState
  pub kill_switch_engaged : Bool
  pub portfolio : PortfolioView
  pub health : HealthView
  pub rates : RateView
  pub exit_allowed_in_kill_switch : Bool

pub record TokenQuote : Type 0 where
  pub token_id : String
  pub outcome : String
  pub best_bid : Option ℕ
  pub spread : Option ℤ
  pub book_age_ms : Option ℕ
  pub book_valid : Bool

pub record ReferenceView : Type 0 where
  pub spot_age_ms : Option ℕ
  pub twap_age_ms : Option ℕ
  pub price_to_beat_verified : Bool

pub record MarketSnapshot : Type 0 where
  pub market : MarketDefinition
  pub first : TokenQuote
  pub second : TokenQuote
  pub reference : ReferenceView
  pub time_to_expiry_ms : ℤ
  pub time_since_start_ms : ℤ
  pub feeds_connected : Bool
  pub stale_reasons : List String

-- `quote`; `none` is the `KeyError`
unfoldable pub quote : MarketSnapshot → String → Option TokenQuote
quote s outcome =
    if str_eq s.first.outcome outcome
    then some s.first
    else if str_eq s.second.outcome outcome
    then some s.second
    else none

unfoldable pub is_fresh : MarketSnapshot → Bool
is_fresh s = is_empty s.stale_reasons && s.feeds_connected

-- `uncertainty` is the property's value, the difference of two floats as Python rounds it.
pub record TradeCandidate : Type 0 where
  pub condition_id : String
  pub token_id : String
  pub outcome : String
  pub side : Side
  pub fair_probability : ℤ
  pub probability_lower : ℤ
  pub probability_upper : ℤ
  pub uncertainty : ℤ
  pub executable_price : ℕ
  pub worst_price : ℕ
  pub estimated_slippage : ℤ
  pub expected_edge : ℤ
  pub conservative_edge : ℤ
  pub worst_case_edge : ℤ
  pub liquidity_usd : ℕ
  pub notional_usd : ℕ
  pub rejections : List String

-- `passes_filters`
abbrev pub passes_filters : TradeCandidate → Bool
passes_filters c = is_empty c.rejections
