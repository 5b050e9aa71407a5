-- ===== src/Exits/Tests.antt =====
-- The exit engine on a concrete position.
use claude_route.Base.{
  ℕ, ◌+◌, ◌*◌, ◌≡◌, refl, Bool, true, false, Option, none, some, [], ltb, arith,
}
use claude_route.Base.Int.{pos}
use claude_route.Domain.Market.{FeeSchedule}
use claude_route.Domain.Types.{BotState}
use claude_route.Risk.Ticks.{floor_to_tick, ceil_to_tick}
use claude_route.Risk.Views.{TokenQuote, MarketSnapshot, quote}
use claude_route.Exits.{
  HeldPosition, ExitPolicyConfig, Estimate, Evaluation, exit, hold, converged, requested, millionth,
  fee_at, ceil_price, floor_price, value_floor, bid_fee, price_scale, value_rule, rule, signal,
  evaluate, forced_exit, resolution_imminent,
}
use claude_route.Exits.Signals.{Sound, evaluate-Sound}

abbrev token_quote : TokenQuote
token_quote = record {
  token_id = "t";
  outcome = "Up";
  best_bid = some 6_200;
  spread = none;
  book_age_ms = some 100;
  book_valid = true;
}

abbrev snapshot : ℕ → MarketSnapshot
snapshot tau = record {
  market = record {
    condition_id = "c";
    slug = "btc";
    first = record { token_id = "t"; outcome = "Up" };
    second = record { token_id = "u"; outcome = "Down" };
    window_start_ms = 0;
    window_end_ms = 300_000;
    tick_size = 100;
    min_order_size = 5_000_000;
    fee_schedule = record { rate = 200; exponent = 1 };
    rule_id = "r";
    accepting_orders = true;
  };
  first = token_quote;
  second = record token_quote { token_id = "u"; outcome = "Down" };
  reference = record { spot_age_ms = none; twap_age_ms = none; price_to_beat_verified = true };
  time_to_expiry_ms = pos tau;
  time_since_start_ms = pos 0;
  feeds_connected = true;
  stale_reasons = [];
}

-- 10 shares at 0.50
abbrev position : HeldPosition
position = record {
  token_id = "t";
  condition_id = "c";
  outcome = "Up";
  shares = 10_000_000;
  avg_entry_price = 500_000 * millionth;
  opened_ms = 0;
  max_holding_ms = none;
}

abbrev config : ExitPolicyConfig
config = record {
  convergence_tolerance = 10_000 * millionth;
  take_profit_per_share = 200_000 * millionth;
  invalidation_margin = 50_000 * millionth;
  invalidation_exit_always = false;
  max_holding_time_ms = none;
  hold_to_resolution = true;
  no_exit_window_ms = 8_000;
  risk_exit_discount = 20_000 * millionth;
  min_exit_price = 100;
  exit_stale_data_ms = 3_000;
  on_halt_exit = true;
  on_kill_switch_exit = true;
}

-- Fair at 0.60, between 0.55 and 0.65
abbrev estimate : Estimate
estimate = record { is_ok = true; fair = 600_000; lower = 550_000; upper = 650_000 }

abbrev evaluated : ℕ → Bool → Option Evaluation
evaluated tau kill =
    evaluate config position (some (snapshot tau)) (some estimate) BotState.paper kill false 1_000

converges : evaluated 100_000 false ≡ some (exit converged false (signal position 6_000 1_000))
unfolding evaluate rule value_rule fee_at ceil_price ceil_to_tick quote
converges = refl

imminent : evaluated 8_000 false ≡ some (hold resolution_imminent)
unfolding evaluate
imminent = refl

forced :
    forced_exit config position (some (snapshot 100_000)) (some estimate) 1_000
    ≡ some (exit requested false (signal position 5_300 1_000))
unfolding forced_exit floor_price floor_to_tick quote
forced = refl

-- Fair at 0.30 with a tolerance of 0.01: a sale at the lowest price brings less than 0.29, since its
-- fee is above that of a sale at 0.30.
abbrev low_estimate : Estimate
low_estimate = record { is_ok = true; fair = 300_000; lower = 250_000; upper = 350_000 }

abbrev low_fees : FeeSchedule
low_fees = record { rate = 700; exponent = 1 }

low_floor : value_floor config low_fees 1 low_estimate ≡ 3_047
unfolding fee_at ceil_price ceil_to_tick
low_floor = refl

nets_below_fair :
    ltb
      (3_047 * price_scale + config.convergence_tolerance)
      (300_000 * millionth + bid_fee low_fees 3_047)
    ≡ true
unfolding fee_at
nets_below_fair = refl

evaluate-Sound_example :
    Sound config position (snapshot 100_000) (some estimate) converged (signal position 6_000 1_000)
evaluate-Sound_example =
    evaluate-Sound config position (snapshot 100_000) (some estimate) BotState.paper false false
      1_000 converged false (signal position 6_000 1_000) (omega arith) converges
