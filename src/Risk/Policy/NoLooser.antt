-- ===== src/Risk/Policy/NoLooser.antt =====
-- The caps only tighten a policy (config/risk_policy.py).
use claude_route.Base.{ℕ, ◌≤◌, ◌≡◌, refl, ltb, arith, if◌then◌else◌}
use claude_route.Risk.Policy.{RiskPolicy, apply_hard_caps, apply_small_live_caps}

-- `q` is nowhere looser than `p`: no ceiling is above the one configured and no floor below it, and
-- what has no cap is as configured.
pub record IsNoLooser (p q : RiskPolicy) : Type 0 where
  pub max_position_usd : q.max_position_usd ≤ p.max_position_usd
  pub max_total_exposure_usd : q.max_total_exposure_usd ≤ p.max_total_exposure_usd
  pub max_order_size_usd : q.max_order_size_usd ≤ p.max_order_size_usd
  pub max_daily_loss_usd : q.max_daily_loss_usd ≤ p.max_daily_loss_usd
  pub max_daily_loss_pct : q.max_daily_loss_pct ≤ p.max_daily_loss_pct
  pub max_drawdown_pct : q.max_drawdown_pct ≤ p.max_drawdown_pct
  pub max_open_positions : q.max_open_positions ≤ p.max_open_positions
  pub max_trades_per_minute : q.max_trades_per_minute ≤ p.max_trades_per_minute
  pub max_trades_per_hour : q.max_trades_per_hour ≤ p.max_trades_per_hour
  pub max_trades_per_day : q.max_trades_per_day ≤ p.max_trades_per_day
  pub max_spread : q.max_spread ≤ p.max_spread
  pub max_slippage : q.max_slippage ≤ p.max_slippage
  pub max_data_age_ms : q.max_data_age_ms ≤ p.max_data_age_ms
  pub max_reference_age_ms : q.max_reference_age_ms ≤ p.max_reference_age_ms
  pub max_uncertainty : q.max_uncertainty ≤ p.max_uncertainty
  pub max_entry_price : q.max_entry_price ≤ p.max_entry_price
  pub max_clock_drift_ms : q.max_clock_drift_ms ≤ p.max_clock_drift_ms
  pub min_conservative_edge : p.min_conservative_edge ≤ q.min_conservative_edge
  pub min_liquidity_usd : p.min_liquidity_usd ≤ q.min_liquidity_usd
  pub min_time_to_expiry_s : p.min_time_to_expiry_s ≤ q.min_time_to_expiry_s
  pub min_entry_price : p.min_entry_price ≤ q.min_entry_price
  pub cooldown_same_market_s : p.cooldown_same_market_s ≤ q.cooldown_same_market_s
  pub max_positions_per_market : q.max_positions_per_market ≡ p.max_positions_per_market
  pub min_balance_reserve_usd : q.min_balance_reserve_usd ≡ p.min_balance_reserve_usd
  pub max_consecutive_losses : q.max_consecutive_losses ≡ p.max_consecutive_losses
  pub max_order_age_seconds : q.max_order_age_seconds ≡ p.max_order_age_seconds
  pub min_time_since_start_s : q.min_time_since_start_s ≡ p.min_time_since_start_s
  pub require_reconciled_within_s : q.require_reconciled_within_s ≡ p.require_reconciled_within_s
  pub cooldown_after_loss_s : q.cooldown_after_loss_s ≡ p.cooldown_after_loss_s
  pub allow_exits_when_halted : q.allow_exits_when_halted ≡ p.allow_exits_when_halted
  pub exits_require_fresh_book : q.exits_require_fresh_book ≡ p.exits_require_fresh_book

pub lowered : (cap value bound : ℕ) → value ≤ bound → (if ltb cap value then cap else value) ≤ bound
lowered cap value bound h = ground arith

at_most-le_value : (cap value : ℕ) → (if ltb cap value then cap else value) ≤ value
at_most-le_value cap value = ground arith

at_least-ge_value : (cap value : ℕ) → value ≤ (if ltb value cap then cap else value)
at_least-ge_value cap value = ground arith

pub apply_hard_caps-IsNoLooser : (p : RiskPolicy) → IsNoLooser p (apply_hard_caps p)
unfolding apply_hard_caps
apply_hard_caps-IsNoLooser p = record {
  max_position_usd = at_most-le_value _ p.max_position_usd;
  max_total_exposure_usd = at_most-le_value _ p.max_total_exposure_usd;
  max_order_size_usd = at_most-le_value _ p.max_order_size_usd;
  max_daily_loss_usd = at_most-le_value _ p.max_daily_loss_usd;
  max_daily_loss_pct = at_most-le_value _ p.max_daily_loss_pct;
  max_drawdown_pct = at_most-le_value _ p.max_drawdown_pct;
  max_open_positions = at_most-le_value _ p.max_open_positions;
  max_trades_per_minute = at_most-le_value _ p.max_trades_per_minute;
  max_trades_per_hour = at_most-le_value _ p.max_trades_per_hour;
  max_trades_per_day = at_most-le_value _ p.max_trades_per_day;
  max_spread = at_most-le_value _ p.max_spread;
  max_slippage = at_most-le_value _ p.max_slippage;
  max_data_age_ms = at_most-le_value _ p.max_data_age_ms;
  max_reference_age_ms = at_most-le_value _ p.max_reference_age_ms;
  max_uncertainty = at_most-le_value _ p.max_uncertainty;
  max_entry_price = at_most-le_value _ p.max_entry_price;
  max_clock_drift_ms = at_most-le_value _ p.max_clock_drift_ms;
  min_conservative_edge = at_least-ge_value _ p.min_conservative_edge;
  min_liquidity_usd = at_least-ge_value _ p.min_liquidity_usd;
  min_time_to_expiry_s = at_least-ge_value _ p.min_time_to_expiry_s;
  min_entry_price = at_least-ge_value _ p.min_entry_price;
  cooldown_same_market_s = at_least-ge_value _ p.cooldown_same_market_s;
  max_positions_per_market = refl;
  min_balance_reserve_usd = refl;
  max_consecutive_losses = refl;
  max_order_age_seconds = refl;
  min_time_since_start_s = refl;
  require_reconciled_within_s = refl;
  cooldown_after_loss_s = refl;
  allow_exits_when_halted = refl;
  exits_require_fresh_book = refl;
}

pub apply_small_live_caps-IsNoLooser :
    (p q : RiskPolicy) → IsNoLooser p q → IsNoLooser p (apply_small_live_caps q)
unfolding apply_small_live_caps
apply_small_live_caps-IsNoLooser p q h = record {
  max_position_usd = lowered _ q.max_position_usd _ h.max_position_usd;
  max_total_exposure_usd = lowered _ q.max_total_exposure_usd _ h.max_total_exposure_usd;
  max_order_size_usd = lowered _ q.max_order_size_usd _ h.max_order_size_usd;
  max_open_positions = lowered _ q.max_open_positions _ h.max_open_positions;
  max_positions_per_market = h.max_positions_per_market;
  min_balance_reserve_usd = h.min_balance_reserve_usd;
  max_daily_loss_usd = lowered _ q.max_daily_loss_usd _ h.max_daily_loss_usd;
  max_daily_loss_pct = h.max_daily_loss_pct;
  max_drawdown_pct = h.max_drawdown_pct;
  max_consecutive_losses = h.max_consecutive_losses;
  max_spread = h.max_spread;
  max_slippage = h.max_slippage;
  min_liquidity_usd = h.min_liquidity_usd;
  min_entry_price = h.min_entry_price;
  max_entry_price = h.max_entry_price;
  min_conservative_edge = h.min_conservative_edge;
  max_uncertainty = h.max_uncertainty;
  max_data_age_ms = h.max_data_age_ms;
  max_reference_age_ms = h.max_reference_age_ms;
  max_clock_drift_ms = h.max_clock_drift_ms;
  max_order_age_seconds = h.max_order_age_seconds;
  min_time_to_expiry_s = h.min_time_to_expiry_s;
  min_time_since_start_s = h.min_time_since_start_s;
  require_reconciled_within_s = h.require_reconciled_within_s;
  max_trades_per_minute = h.max_trades_per_minute;
  max_trades_per_hour = lowered _ q.max_trades_per_hour _ h.max_trades_per_hour;
  max_trades_per_day = h.max_trades_per_day;
  cooldown_same_market_s = h.cooldown_same_market_s;
  cooldown_after_loss_s = h.cooldown_after_loss_s;
  allow_exits_when_halted = h.allow_exits_when_halted;
  exits_require_fresh_book = h.exits_require_fresh_book;
}
