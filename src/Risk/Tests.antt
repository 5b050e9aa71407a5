-- ===== src/Risk/Tests.antt =====
-- The risk layer on a concrete policy, candidate and position.
use claude_route.Base.{
  ◌*◌, ◌<◌, ◌≡◌, refl, true, false, Option, none, some, List, [], ◌∷◌, ok, String,
}
use claude_route.Base.Int.{pos, ◌-ℤ◌, ◌+ℤ◌}
use claude_route.Base.Dict.{lookup}
use claude_route.Domain.Types.{Side, TradingMode, BotState}
use claude_route.Domain.Market.{MarketDefinition, outcome_of, fee_rate_at}
use claude_route.Domain.Decisions.{RiskDecision, ExitSignal}
use claude_route.Risk.Ticks.{on_tick}
use claude_route.Risk.Policy.{
  RiskPolicy, one_usd, clamp_to_hard_caps, apply_hard_caps, apply_small_live_caps, hard_cap_notes,
  small_live_notes,
}
use claude_route.Risk.Policy.NoLooser.{IsNoLooser}
use claude_route.Risk.Policy.Clamped.{IsCapped, clamp_to_hard_caps-IsCapped}
use claude_route.Risk.Views.{
  PositionView, PortfolioView, HealthView, RateView, EntryContext, ExitContext, MarketSnapshot,
  TradeCandidate, quote, exposure_usd,
}
use claude_route.Risk.Entry.{
  evaluate_entry, entry_decision, common_state_checks, state_checks, market_checks,
  freshness_checks, price_checks, sizing_checks, rate_checks,
}
use claude_route.Risk.Entry.Safety.{IsSafeEntry, evaluate_entry-IsSafeEntry}
use claude_route.Risk.Loss.{loss_limit_breaches}
use claude_route.Risk.Sizing.{size_of}
use claude_route.Risk.Exit.{evaluate_exit, exit_checks, book_checks}
use claude_route.Risk.Exit.ReduceOnly.{IsReducing, evaluate_exit-IsReducing}
use claude_route.Risk.Rates.{RateTracker}

-- The defaults, but for a larger position than the hard caps permit.
abbrev policy : RiskPolicy
policy = record {
  max_position_usd = 500 * one_usd;
  max_total_exposure_usd = 60 * one_usd;
  max_order_size_usd = 20 * one_usd;
  max_open_positions = 2;
  max_positions_per_market = 1;
  min_balance_reserve_usd = 0;
  max_daily_loss_usd = 30 * one_usd;
  max_daily_loss_pct = 100_000;
  max_drawdown_pct = 200_000;
  max_consecutive_losses = 6;
  max_spread = 400;
  max_slippage = 20_000;
  min_liquidity_usd = 25 * one_usd;
  min_entry_price = 500;
  max_entry_price = 9_500;
  min_conservative_edge = 30_000;
  max_uncertainty = 250_000;
  max_data_age_ms = 2_000;
  max_reference_age_ms = 5_000;
  max_clock_drift_ms = 1_000;
  max_order_age_seconds = 30;
  min_time_to_expiry_s = 45;
  min_time_since_start_s = 5;
  require_reconciled_within_s = 120;
  max_trades_per_minute = 2;
  max_trades_per_hour = 20;
  max_trades_per_day = 120;
  cooldown_same_market_s = 30;
  cooldown_after_loss_s = 60;
  allow_exits_when_halted = true;
  exits_require_fresh_book = true;
}

abbrev capped : RiskPolicy
capped = apply_hard_caps policy

clamps : clamp_to_hard_caps policy false ≡ ok (capped, 1)
unfolding clamp_to_hard_caps apply_hard_caps hard_cap_notes
clamps = refl

clamp_to_hard_caps-IsCapped_example :
    IsCapped capped × IsNoLooser policy capped × (capped.min_entry_price < capped.max_entry_price)
clamp_to_hard_caps-IsCapped_example = clamp_to_hard_caps-IsCapped policy capped false 1 clamps

clamps_small : clamp_to_hard_caps policy true ≡ ok (apply_small_live_caps capped, 6)
unfolding clamp_to_hard_caps apply_hard_caps hard_cap_notes apply_small_live_caps small_live_notes
clamps_small = refl

abbrev market : MarketDefinition
market = record {
  condition_id = "c";
  slug = "m";
  first = record { token_id = "t"; outcome = "Up" };
  second = record { token_id = "u"; outcome = "Down" };
  window_start_ms = 0;
  window_end_ms = 900_000;
  tick_size = 100;
  min_order_size = 5_000_000;
  fee_schedule = record { rate = 700; exponent = 1 };
  rule_id = "r";
  accepting_orders = true;
}

abbrev snapshot : MarketSnapshot
snapshot = record {
  market = market;
  first = record {
    token_id = "t";
    outcome = "Up";
    best_bid = some 4_900;
    spread = some (pos 100);
    book_age_ms = some 50;
    book_valid = true;
  };
  second = record {
    token_id = "u";
    outcome = "Down";
    best_bid = some 4_900;
    spread = none;
    book_age_ms = none;
    book_valid = false;
  };
  reference = record {
    spot_age_ms = some 10;
    twap_age_ms = some 20;
    price_to_beat_verified = true;
  };
  time_to_expiry_ms = pos 300_000;
  time_since_start_ms = pos 60_000;
  feeds_connected = true;
  stale_reasons = [];
}

abbrev portfolio : List (String × PositionView) → PortfolioView
portfolio positions = record {
  cash_usd = pos (100 * one_usd);
  equity_usd = pos (100 * one_usd);
  start_of_day_equity_usd = pos (100 * one_usd);
  peak_equity_usd = pos (100 * one_usd);
  positions = positions;
  pending_buy_usd = 0;
  pending_sell_shares = [];
  consecutive_losses = 0;
  last_loss_ms = none;
}

abbrev health : HealthView
health = record {
  market_stream_ok = true;
  reference_stream_ok = true;
  clock_drift_ms = some (pos 5);
  last_reconciliation_ms = some 50_000;
  last_reconciliation_ok = true;
  watchdog_ok = true;
  unknown_orders = 0;
  in_flight_orders = 0;
  in_flight_tokens = [];
}

abbrev rates : RateView
rates = record {
  submissions_last_minute = 0;
  submissions_last_hour = 0;
  submissions_last_day = 0;
  exits_last_minute = 0;
  last_submit_ms_by_market = [];
}

abbrev entry_context : EntryContext
entry_context = record {
  mode = TradingMode.paper;
  bot_state = BotState.paper;
  kill_switch_engaged = false;
  resolution_valid = true;
  portfolio = portfolio [];
  health = health;
  rates = rates;
  max_in_flight_orders = 2;
  llm_size_multiplier = pos 1_000_000;
}

-- Probabilities in millionths stand for the floats, which the tests only compare.
abbrev candidate : TradeCandidate
candidate = record {
  condition_id = "c";
  token_id = "t";
  outcome = "Up";
  side = Side.buy;
  fair_probability = pos 650_000;
  probability_lower = pos 600_000;
  probability_upper = pos 700_000;
  uncertainty = pos 100_000;
  worst_price = 5_000;
  estimated_slippage = pos 0;
  executable_price = 5_000;
  expected_edge = pos 70_000;
  conservative_edge = pos 50_000;
  worst_case_edge = pos 40_000;
  liquidity_usd = 100 * one_usd;
  notional_usd = 10 * one_usd;
  rejections = [];
}

abbrev the : Option RiskDecision → RiskDecision
the (some d) = d
the none = entry_decision 0 "" candidate [] 0

abbrev entry : RiskDecision
entry = the (evaluate_entry pos capped 60_000 "d" candidate snapshot entry_context)

evaluates : evaluate_entry pos capped 60_000 "d" candidate snapshot entry_context ≡ some entry
unfolding evaluate_entry quote
evaluates = refl

allows : entry.allowed ≡ true
unfolding evaluate_entry quote common_state_checks state_checks market_checks freshness_checks
    price_checks sizing_checks rate_checks apply_hard_caps loss_limit_breaches size_of on_tick ◌-ℤ◌
    lookup ◌+ℤ◌ exposure_usd fee_rate_at
allows = refl

evaluate_entry-IsSafeEntry_example : IsSafeEntry capped candidate snapshot entry_context entry
evaluate_entry-IsSafeEntry_example =
    evaluate_entry-IsSafeEntry pos capped 60_000 "d" candidate snapshot entry_context entry
      evaluates allows

abbrev exit_context : ExitContext
exit_context = record {
  mode = TradingMode.paper;
  bot_state = BotState.halted;
  kill_switch_engaged = false;
  portfolio = portfolio (
      (
        "t",
        record {
          token_id = "t";
          condition_id = "c";
          shares = 9_000_000;
          cost_basis_usd = 4 * one_usd;
        },
      )
      ∷ []);
  health = health;
  rates = rates;
  exit_allowed_in_kill_switch = false;
}

abbrev signal : ExitSignal
signal = record {
  token_id = "t";
  condition_id = "c";
  shares = 6_000_000;
  min_price = some 4_000;
  timestamp_ms = 60_000;
}

abbrev exit : RiskDecision
exit = the (evaluate_exit capped 60_000 "e" signal (some snapshot) exit_context)

evaluates_exit : evaluate_exit capped 60_000 "e" signal (some snapshot) exit_context ≡ some exit
unfolding evaluate_exit book_checks quote apply_hard_caps outcome_of
evaluates_exit = refl

allows_exit : exit.allowed ≡ true
unfolding evaluate_exit book_checks quote apply_hard_caps outcome_of exit_checks on_tick lookup
allows_exit = refl

evaluate_exit-IsReducing_example : IsReducing capped signal exit_context exit
evaluate_exit-IsReducing_example =
    evaluate_exit-IsReducing capped 60_000 "e" signal (some snapshot) exit_context exit
      evaluates_exit allows_exit

abbrev tracker : RateTracker
tracker = record { entries = 10 ∷ 90_000_000 ∷ []; exits = 89_990_000 ∷ []; last_by_market = [] }
