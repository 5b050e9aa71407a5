-- ===== src/Risk/Policy.antt =====
-- `RiskPolicy` and `clamp_to_hard_caps` of src/polymarket_bot/config/risk_policy.py, with the caps of
-- risk/hard_caps.py. USD amounts and prices are in the units of Domain.Orders; percentages, the
-- slippage, the edge and the uncertainty count 0.000001. The list of notes, one to a field that
-- changes, is kept as the number of its entries.
pub mod Clamped
pub mod NoLooser
use claude_route.Base.{ℕ, ◌+◌, ◌*◌, Bool, true, false, ltb, leb, Result, ok, err, if◌then◌else◌}

pub record RiskPolicy : Type 0 where
  pub max_position_usd : ℕ
  pub max_total_exposure_usd : ℕ
  pub max_order_size_usd : ℕ
  pub max_open_positions : ℕ
  pub max_positions_per_market : ℕ
  pub min_balance_reserve_usd : ℕ
  pub max_daily_loss_usd : ℕ
  pub max_daily_loss_pct : ℕ
  pub max_drawdown_pct : ℕ
  pub max_consecutive_losses : ℕ
  pub max_spread : ℕ
  pub max_slippage : ℕ
  pub min_liquidity_usd : ℕ
  pub min_entry_price : ℕ
  pub max_entry_price : ℕ
  pub min_conservative_edge : ℕ
  pub max_uncertainty : ℕ
  pub max_data_age_ms : ℕ
  pub max_reference_age_ms : ℕ
  pub max_clock_drift_ms : ℕ
  pub max_order_age_seconds : ℕ
  pub min_time_to_expiry_s : ℕ
  pub min_time_since_start_s : ℕ
  pub require_reconciled_within_s : ℕ
  pub max_trades_per_minute : ℕ
  pub max_trades_per_hour : ℕ
  pub max_trades_per_day : ℕ
  pub cooldown_same_market_s : ℕ
  pub cooldown_after_loss_s : ℕ
  pub allow_exits_when_halted : Bool
  pub exits_require_fresh_book : Bool

abbrev pub one_usd : ℕ
one_usd = 10_000_000_000

-- A cap of kind "max", and one of kind "min".
abbrev pub at_most : ℕ → ℕ → ℕ
at_most cap value = if ltb cap value then cap else value

abbrev pub at_least : ℕ → ℕ → ℕ
at_least cap value = if ltb value cap then cap else value

-- The loop over `HARD_CAPS`.
unfoldable pub apply_hard_caps : RiskPolicy → RiskPolicy
apply_hard_caps p = record p {
  max_position_usd = at_most (100 * one_usd) p.max_position_usd;
  max_total_exposure_usd = at_most (300 * one_usd) p.max_total_exposure_usd;
  max_order_size_usd = at_most (100 * one_usd) p.max_order_size_usd;
  max_daily_loss_usd = at_most (100 * one_usd) p.max_daily_loss_usd;
  max_daily_loss_pct = at_most 200_000 p.max_daily_loss_pct;
  max_drawdown_pct = at_most 300_000 p.max_drawdown_pct;
  max_open_positions = at_most 5 p.max_open_positions;
  max_trades_per_minute = at_most 4 p.max_trades_per_minute;
  max_trades_per_hour = at_most 40 p.max_trades_per_hour;
  max_trades_per_day = at_most 300 p.max_trades_per_day;
  max_spread = at_most 1_000 p.max_spread;
  max_slippage = at_most 50_000 p.max_slippage;
  max_data_age_ms = at_most 5_000 p.max_data_age_ms;
  max_reference_age_ms = at_most 10_000 p.max_reference_age_ms;
  max_uncertainty = at_most 400_000 p.max_uncertainty;
  max_entry_price = at_most 9_700 p.max_entry_price;
  max_clock_drift_ms = at_most 2_000 p.max_clock_drift_ms;
  min_conservative_edge = at_least 10_000 p.min_conservative_edge;
  min_liquidity_usd = at_least (5 * one_usd) p.min_liquidity_usd;
  min_time_to_expiry_s = at_least 20 p.min_time_to_expiry_s;
  min_entry_price = at_least 300 p.min_entry_price;
  cooldown_same_market_s = at_least 5 p.cooldown_same_market_s;
}

-- The loop over `SMALL_LIVE_CAPS`, which reads the values that the first loop leaves.
unfoldable pub apply_small_live_caps : RiskPolicy → RiskPolicy
apply_small_live_caps p = record p {
  max_position_usd = at_most (10 * one_usd) p.max_position_usd;
  max_total_exposure_usd = at_most (30 * one_usd) p.max_total_exposure_usd;
  max_order_size_usd = at_most (10 * one_usd) p.max_order_size_usd;
  max_daily_loss_usd = at_most (20 * one_usd) p.max_daily_loss_usd;
  max_open_positions = at_most 2 p.max_open_positions;
  max_trades_per_hour = at_most 12 p.max_trades_per_hour;
}

abbrev pub over : ℕ → ℕ → ℕ
over cap value = if ltb cap value then 1 else 0

abbrev pub under : ℕ → ℕ → ℕ
under cap value = if ltb value cap then 1 else 0

-- `len(notes)` of the first loop, in the order of `HARD_CAPS`.
unfoldable pub hard_cap_notes : RiskPolicy → ℕ
hard_cap_notes p =
    over (100 * one_usd) p.max_position_usd
    + over (300 * one_usd) p.max_total_exposure_usd
    + over (100 * one_usd) p.max_order_size_usd
    + over (100 * one_usd) p.max_daily_loss_usd
    + over 200_000 p.max_daily_loss_pct
    + over 300_000 p.max_drawdown_pct
    + over 5 p.max_open_positions
    + over 4 p.max_trades_per_minute
    + over 40 p.max_trades_per_hour
    + over 300 p.max_trades_per_day
    + over 1_000 p.max_spread
    + over 50_000 p.max_slippage
    + over 5_000 p.max_data_age_ms
    + over 10_000 p.max_reference_age_ms
    + over 400_000 p.max_uncertainty
    + over 9_700 p.max_entry_price
    + over 2_000 p.max_clock_drift_ms
    + under 10_000 p.min_conservative_edge
    + under (5 * one_usd) p.min_liquidity_usd
    + under 20 p.min_time_to_expiry_s
    + under 300 p.min_entry_price
    + under 5 p.cooldown_same_market_s

unfoldable pub small_live_notes : RiskPolicy → ℕ
small_live_notes p =
    over (10 * one_usd) p.max_position_usd
    + over (30 * one_usd) p.max_total_exposure_usd
    + over (10 * one_usd) p.max_order_size_usd
    + over (20 * one_usd) p.max_daily_loss_usd
    + over 2 p.max_open_positions
    + over 12 p.max_trades_per_hour

pub data PolicyError : Type 0 where
  entry_prices_crossed : PolicyError

-- `clamp_to_hard_caps`
unfoldable pub clamp_to_hard_caps : RiskPolicy → Bool → Result PolicyError (RiskPolicy × ℕ)
clamp_to_hard_caps p small_live =
    let capped = apply_hard_caps p in
    let effective = if small_live then apply_small_live_caps capped else capped in
    let notes = hard_cap_notes p + (if small_live then small_live_notes capped else 0) in
    if leb effective.max_entry_price effective.min_entry_price
    then err entry_prices_crossed
    else ok (effective, notes)
