-- ===== src/Risk/Entry.antt =====
-- `evaluate_entry` of the risk engine, its checks section by section in the order in which they are
-- made. `now` is the clock, `id` the new decision's id, and `float` turns a Decimal that counts
-- 0.000001 into a float. Differences of times are compared without the difference.

pub mod Safety
use claude_route.Base.{
  ℕ, ◌+◌, ◌*◌, String, Bool, true, false, not, ◌&&◌, ◌||◌, Option, none, some, List, [], ◌∷◌, ◌++◌,
  any, all, ltb, leb, ◌==◌, str_eq, length, is_some, is_empty, if◌then◌else◌,
}
use Prim.Native.Nat.{max}
use claude_route.Base.Int.{ℤ, pos, pos_part, neg_part, leb_ℤ}
use claude_route.Base.Dict.{lookup, values, contains}
use claude_route.Domain.Types.{Side, TradingMode, BotState, OrderPurpose, same_side, same_state}
use claude_route.Domain.Orders.{usd_cent}
use claude_route.Domain.Market.{MarketDefinition, Fraction, fee_rate_at}
use claude_route.Domain.Decisions.{RiskCheck, RiskDecision}
use claude_route.Risk.Policy.{RiskPolicy, one_usd}
use claude_route.Risk.Ticks.{on_tick}
use claude_route.Risk.Loss.{loss_limit_breaches}
use claude_route.Risk.Views.{
  HealthView, EntryContext, TokenQuote, ReferenceView, MarketSnapshot, TradeCandidate, quote,
  is_fresh, passes_filters,
}
use claude_route.Risk.Sizing.{
  is_unit, available_cash, position_cap, exposure_cap, size_of, enough_shares, floor_shares,
  tokens_in_market, open_count,
}

-- `_Checks.add`
abbrev pub check : String → Bool → RiskCheck
check name passed = record { name = name; passed = passed }

-- `not c.failed`
abbrev pub all_passed : List RiskCheck → Bool
all_passed = all (λ c. c.passed)

abbrev pub trades : TradingMode → Bool
trades TradingMode.disabled = false
trades TradingMode.paper = true
trades TradingMode.replay = true
trades TradingMode.live = true

abbrev pub within_drift : Option ℤ → ℕ → Bool
within_drift none limit = false
within_drift (some d) limit = leb (pos_part d + neg_part d) limit

-- `_common_state_checks`
unfoldable pub common_state_checks : RiskPolicy → TradingMode → Bool → HealthView → List RiskCheck
common_state_checks p mode kill h =
    check "trading_mode" (trades mode)
    ∷ check "kill_switch" (not kill)
    ∷ check "clock_drift" (within_drift h.clock_drift_ms p.max_clock_drift_ms)
    ∷ check "unknown_orders" (h.unknown_orders == 0)
    ∷ check "watchdog" h.watchdog_ok
    ∷ []

abbrev pub expected_state : TradingMode → BotState
expected_state TradingMode.live = BotState.live
expected_state _ = BotState.paper

-- `last is None or now - last >= ms`
abbrev pub cooled : Option ℕ → ℕ → ℕ → Bool
cooled none now ms = true
cooled (some last) now ms = leb (last + ms) now

-- `last is not None and now - last <= ms`
abbrev pub recent : Option ℕ → ℕ → ℕ → Bool
recent none now ms = false
recent (some last) now ms = leb now (last + ms)

unfoldable pub state_checks : RiskPolicy → ℕ → EntryContext → List RiskCheck
state_checks p now x =
    check "bot_state" (same_state x.bot_state (expected_state x.mode))
    ∷ check "loss_limits" (is_empty (loss_limit_breaches p x.portfolio))
    ∷ check "consecutive_losses" (ltb x.portfolio.consecutive_losses p.max_consecutive_losses)
    ∷ check "cooldown_after_loss"
        (cooled x.portfolio.last_loss_ms now (p.cooldown_after_loss_s * 1000))
    ∷ check "market_stream" x.health.market_stream_ok
    ∷ check "reference_stream" x.health.reference_stream_ok
    ∷ check "reconciliation" (
        x.health.last_reconciliation_ok
        && recent x.health.last_reconciliation_ms now (p.require_reconciled_within_s * 1000))
    ∷ []

unfoldable pub market_checks : TradeCandidate → MarketDefinition → EntryContext → List RiskCheck
market_checks c m x =
    check "resolution_valid" x.resolution_valid
    ∷ check "rule_id_consistent" (not (str_eq m.rule_id ""))
    ∷ check "market_accepting_orders" m.accepting_orders
    ∷ check "candidate_market" (str_eq c.condition_id m.condition_id)
    ∷ check "candidate_filters" (passes_filters c)
    ∷ check "entry_side_buy" (same_side c.side Side.buy)
    ∷ []

abbrev pub at_most_ms : Option ℕ → ℕ → Bool
at_most_ms none limit = false
at_most_ms (some age) limit = leb age limit

unfoldable pub freshness_checks : RiskPolicy → MarketSnapshot → TokenQuote → List RiskCheck
unfolding is_fresh
freshness_checks p s q =
    check "snapshot_fresh" (is_fresh s)
    ∷ check "book_age" (q.book_valid && at_most_ms q.book_age_ms p.max_data_age_ms)
    ∷ check "reference_age" (
        at_most_ms s.reference.spot_age_ms p.max_reference_age_ms
        && at_most_ms s.reference.twap_age_ms p.max_reference_age_ms)
    ∷ check "price_to_beat_verified" s.reference.price_to_beat_verified
    ∷ check "time_to_expiry" (leb_ℤ (pos (p.min_time_to_expiry_s * 1000)) s.time_to_expiry_ms)
    ∷ check "time_since_start" (leb_ℤ (pos (p.min_time_since_start_s * 1000)) s.time_since_start_ms)
    ∷ []

abbrev pub within_spread : Option ℤ → ℕ → Bool
within_spread none limit = false
within_spread (some s) limit = leb_ℤ s (pos limit)

-- A fee rate is not negative here, so the first half of "fee_known" holds.
unfoldable pub price_checks :
    (ℕ → ℤ) → RiskPolicy → TradeCandidate → MarketDefinition → TokenQuote → List RiskCheck
price_checks float p c m q =
    check "spread" (within_spread q.spread p.max_spread)
    ∷ check "slippage" (leb_ℤ c.estimated_slippage (pos p.max_slippage))
    ∷ check "liquidity" (leb p.min_liquidity_usd c.liquidity_usd)
    ∷ check "entry_price_band"
        (leb p.min_entry_price c.worst_price && leb c.worst_price p.max_entry_price)
    ∷ check "tick_size" (on_tick c.worst_price m.tick_size)
    ∷ check "fee_known" (leb m.fee_schedule.rate 2_000)
    ∷ check "conservative_edge" (leb_ℤ (float p.min_conservative_edge) c.conservative_edge)
    ∷ check "worst_case_edge" (leb_ℤ (float p.min_conservative_edge) c.worst_case_edge)
    ∷ check "uncertainty" (leb_ℤ c.uncertainty (float p.max_uncertainty))
    ∷ check "probability_bounds_sane" (
        leb_ℤ (pos 0) c.probability_lower
        && leb_ℤ c.probability_lower c.fair_probability
        && leb_ℤ c.fair_probability c.probability_upper
        && leb_ℤ c.probability_upper (float 1_000_000))
    ∷ []

-- `MIN_ORDER_NOTIONAL_USD`
abbrev pub min_order_notional_usd : ℕ
min_order_notional_usd = one_usd

unfoldable pub sizing_checks :
    RiskPolicy → TradeCandidate → MarketDefinition → EntryContext → ℕ → List RiskCheck
unfolding tokens_in_market open_count exposure_cap available_cash
sizing_checks p c m x size =
    let f = x.portfolio in
    check "llm_multiplier_range" (is_unit x.llm_size_multiplier)
    ∷ check "positions_per_market"
        (leb (length (tokens_in_market c (values f.positions))) p.max_positions_per_market)
    ∷ check "max_open_positions"
        (contains c.token_id f.positions || ltb (open_count f.positions) p.max_open_positions)
    ∷ check "position_limit" (ltb 0 (position_cap p c f))
    ∷ check "exposure_limit" (ltb 0 (exposure_cap p f))
    ∷ check "balance" (ltb 0 (available_cash p f))
    ∷ check "min_notional" (leb min_order_notional_usd size)
    ∷ check "min_order_size" (enough_shares size c.worst_price m.min_order_size)
    ∷ []

unfoldable pub rate_checks : RiskPolicy → ℕ → TradeCandidate → EntryContext → List RiskCheck
rate_checks p now c x =
    check "in_flight" (
      ltb x.health.in_flight_orders x.max_in_flight_orders
      && not (any (str_eq c.token_id) x.health.in_flight_tokens))
    ∷ check "cooldown_same_market" (
        cooled (lookup c.condition_id x.rates.last_submit_ms_by_market) now
          (p.cooldown_same_market_s * 1000))
    ∷ check "rate_minute" (ltb x.rates.submissions_last_minute p.max_trades_per_minute)
    ∷ check "rate_hour" (ltb x.rates.submissions_last_hour p.max_trades_per_hour)
    ∷ check "rate_day" (ltb x.rates.submissions_last_day p.max_trades_per_day)
    ∷ []

-- All the checks of an entry of the given size.
abbrev pub entry_checks :
    (ℕ → ℤ)
    → RiskPolicy
    → ℕ
    → TradeCandidate
    → MarketSnapshot
    → TokenQuote
    → EntryContext
    → ℕ
    → List RiskCheck
entry_checks float p now c s q x size =
    common_state_checks p x.mode x.kill_switch_engaged x.health
    ++ state_checks p now x
    ++ market_checks c s.market x
    ++ freshness_checks p s q
    ++ price_checks float p c s.market q
    ++ sizing_checks p c s.market x size
    ++ rate_checks p now c x

abbrev pub entry_size : RiskPolicy → TradeCandidate → MarketSnapshot → EntryContext → ℕ
entry_size p c s x = size_of p c x (fee_rate_at s.market.fee_schedule c.worst_price)

abbrev pub entry_decision : ℕ → String → TradeCandidate → List RiskCheck → ℕ → RiskDecision
entry_decision now id c checks size =
    let allowed = all_passed checks in
    record {
      decision_id = id;
      allowed = allowed;
      checks = checks;
      purpose = OrderPurpose.entry;
      side = Side.buy;
      token_id = c.token_id;
      condition_id = c.condition_id;
      max_size_usd = if allowed then size else 0;
      max_shares = if allowed then floor_shares size c.worst_price else 0;
      limit_price = c.worst_price;
      timestamp_ms = now;
    }

abbrev pub entry_with_quote :
    (ℕ → ℤ)
    → RiskPolicy
    → ℕ
    → String
    → TradeCandidate
    → MarketSnapshot
    → EntryContext
    → Option TokenQuote
    → Option RiskDecision
entry_with_quote float p now id c s x none = none
entry_with_quote float p now id c s x (some q) = some (
    entry_decision now id c (entry_checks float p now c s q x (entry_size p c s x))
      (entry_size p c s x))

-- `none` is the `KeyError` of an outcome that the snapshot does not quote.
unfoldable pub evaluate_entry :
    (ℕ → ℤ)
    → RiskPolicy
    → ℕ
    → String
    → TradeCandidate
    → MarketSnapshot
    → EntryContext
    → Option RiskDecision
evaluate_entry float p now id c s x = entry_with_quote float p now id c s x (quote s c.outcome)
