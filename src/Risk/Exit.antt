-- ===== src/Risk/Exit.antt =====
-- `evaluate_exit` of the risk engine.
pub mod ReduceOnly
use claude_route.Base.{
  ℕ, ◌+◌, ◌-◌, ◌*◌, String, Bool, true, false, not, ◌&&◌, ◌||◌, Option, none, some, List, [], ◌∷◌,
  ◌++◌, any, ltb, leb, ◌==◌, str_eq, is_some, value_or, if◌then◌else◌,
}
use claude_route.Base.Dict.{lookup}
use claude_route.Domain.Types.{Side, BotState, OrderPurpose, same_state}
use claude_route.Domain.Orders.{one_price}
use claude_route.Domain.Market.{MarketDefinition, outcome_of}
use claude_route.Domain.Decisions.{RiskCheck, RiskDecision, ExitSignal}
use claude_route.Risk.Policy.{RiskPolicy}
use claude_route.Risk.Ticks.{on_tick}
use claude_route.Risk.Views.{
  PositionView, PortfolioView, ExitContext, TokenQuote, MarketSnapshot, quote,
}
use claude_route.Risk.Entry.{check, all_passed, trades, at_most_ms}

abbrev pub exit_state_ok : RiskPolicy → ExitContext → Bool
exit_state_ok p x =
    same_state x.bot_state BotState.paper
    || same_state x.bot_state BotState.live
    || same_state x.bot_state BotState.halted && p.allow_exits_when_halted
    || same_state x.bot_state BotState.kill_switch && x.exit_allowed_in_kill_switch

abbrev shares_in : Option PositionView → ℕ
shares_in none = 0
shares_in (some p) = p.shares

abbrev pub held_shares : String → PortfolioView → ℕ
held_shares token f = shares_in (lookup token f.positions)

abbrev pub pending_shares : String → PortfolioView → ℕ
pending_shares token f = value_or (lookup token f.pending_sell_shares) 0

-- `ZERO < signal.shares <= held - pending`
abbrev pub reduces : ExitSignal → PortfolioView → Bool
reduces g f =
    ltb 0 g.shares && leb (g.shares + pending_shares g.token_id f) (held_shares g.token_id f)

unfoldable pub exit_checks : RiskPolicy → ExitSignal → ExitContext → List RiskCheck
exit_checks p g x =
    check "trading_mode" (trades x.mode)
    ∷ check "bot_state" (exit_state_ok p x)
    ∷ check "kill_switch" (not x.kill_switch_engaged || x.exit_allowed_in_kill_switch)
    ∷ check "unknown_orders" (x.health.unknown_orders == 0)
    ∷ check "reduce_only" (reduces g x.portfolio)
    ∷ check "min_price_set" (is_some g.min_price)
    ∷ check "in_flight" (not (any (str_eq g.token_id) x.health.in_flight_tokens))
    ∷ check "rate_minute_exits" (ltb x.rates.exits_last_minute (p.max_trades_per_minute * 2))
    ∷ []

abbrev tick_checks : Option ℕ → ℕ → List RiskCheck
tick_checks none tick = []
tick_checks (some price) tick = check "tick_size" (on_tick price tick) ∷ []

-- `none` is the `KeyError` of `outcome_of` or of `quote`.
abbrev quote_of : MarketSnapshot → Option String → Option TokenQuote
quote_of s none = none
quote_of s (some outcome) = quote s outcome

abbrev book_check : RiskPolicy → Option TokenQuote → Option (List RiskCheck)
book_check p none = none
book_check p (some q) =
    some (check "book_age" (q.book_valid && at_most_ms q.book_age_ms p.max_data_age_ms) ∷ [])

unfoldable pub book_checks : RiskPolicy → ExitSignal → MarketSnapshot → Option (List RiskCheck)
book_checks p g s =
    if p.exits_require_fresh_book
    then book_check p (quote_of s (outcome_of s.market g.token_id))
    else some []

abbrev pub add_checks : List RiskCheck → Option (List RiskCheck) → Option (List RiskCheck)
add_checks cs none = none
add_checks cs (some ds) = some (cs ++ ds)

abbrev pub snapshot_checks :
    RiskPolicy → ExitSignal → Option MarketSnapshot → Option (List RiskCheck)
snapshot_checks p g none = some (check "snapshot_available" false ∷ [])
snapshot_checks p g (some s) =
    add_checks
      (check "min_order_size" (leb s.market.min_order_size g.shares)
        ∷ tick_checks g.min_price s.market.tick_size)
      (book_checks p g s)

abbrev pub exit_decision : ℕ → String → ExitSignal → List RiskCheck → RiskDecision
exit_decision now id g checks = record {
  decision_id = id;
  allowed = all_passed checks;
  checks = checks;
  purpose = OrderPurpose.exit;
  side = Side.sell;
  token_id = g.token_id;
  condition_id = g.condition_id;
  max_size_usd = 0;
  max_shares = if all_passed checks then g.shares else 0;
  limit_price = value_or g.min_price (one_price - 1);
  timestamp_ms = now;
}

abbrev pub decide_exit :
    ℕ → String → ExitSignal → List RiskCheck → Option (List RiskCheck) → Option RiskDecision
decide_exit now id g cs none = none
decide_exit now id g cs (some ds) = some (exit_decision now id g (cs ++ ds))

-- `none` is a `KeyError`.
unfoldable pub evaluate_exit :
    RiskPolicy → ℕ → String → ExitSignal → Option MarketSnapshot → ExitContext → Option RiskDecision
evaluate_exit p now id g s x = decide_exit now id g (exit_checks p g x) (snapshot_checks p g s)
