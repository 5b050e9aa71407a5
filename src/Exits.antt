-- ===== src/Exits.antt =====
-- `ExitEngine` of src/polymarket_bot/exits/engine.py. Prices of the book, the tick and
-- `min_exit_price` count 0.0001, shares 0.000001. Inside, where fees and probabilities meet prices,
-- amounts count 1e-28, in which each sum of the source is exact for the fee exponents 0, 1 and 2.
-- A difference below zero is 0 here: each stands under a maximum with `min_exit_price`, which is
-- positive.
pub mod Priced
pub mod Signals
mod Tests
use Prim.Native.Nat.{◌^◌}
use claude_route.Base.{
  ℕ, ◌+◌, ◌-◌, ◌*◌, ◌/◌, String, Bool, true, false, not, ◌&&◌, ◌||◌, Option, none, some, ltb, leb,
  ◌==◌, str_eq, if◌then◌else◌,
}
use claude_route.Base.Int.{ℤ, pos, leb_ℤ}
use claude_route.Domain.Types.{BotState, same_state}
use claude_route.Domain.Orders.{one_price}
use claude_route.Domain.Market.{FeeSchedule, MarketDefinition}
use claude_route.Domain.Decisions.{ExitSignal}
use claude_route.Risk.Ticks.{floor_to_tick, ceil_to_tick}
use claude_route.Risk.Views.{TokenQuote, MarketSnapshot, quote}

-- 1e-28 in a price unit, in a millionth, and in 1
abbrev pub price_scale : ℕ
price_scale = 1_000_000_000_000_000_000_000_000

abbrev pub millionth : ℕ
millionth = 10_000_000_000_000_000_000_000

abbrev pub one : ℕ
one = 10_000_000_000_000_000_000_000_000_000

pub record HeldPosition : Type 0 where
  pub token_id : String
  pub condition_id : String
  pub outcome : String
  pub shares : ℕ
  pub avg_entry_price : ℕ
  pub opened_ms : ℕ
  pub max_holding_ms : Option ℕ

-- The margins count 1e-28, the times milliseconds.
pub record ExitPolicyConfig : Type 0 where
  pub convergence_tolerance : ℕ
  pub take_profit_per_share : ℕ
  pub invalidation_margin : ℕ
  pub invalidation_exit_always : Bool
  pub max_holding_time_ms : Option ℕ
  pub hold_to_resolution : Bool
  pub no_exit_window_ms : ℕ
  pub risk_exit_discount : ℕ
  pub min_exit_price : ℕ
  pub exit_stale_data_ms : ℕ
  pub on_halt_exit : Bool
  pub on_kill_switch_exit : Bool

-- The estimate for the outcome of the position (`for_outcome`), in the millionths that `round(x, 6)`
-- leaves.
pub record Estimate : Type 0 where
  pub is_ok : Bool
  pub fair : ℕ
  pub lower : ℕ
  pub upper : ℕ

pub data HoldReason : Type 0 where
  no_position account_anomaly_hold no_snapshot resolution_imminent below_min_order_size stale_book
        no_fair_value kill_switch_policy halt_policy invalidated no_rule :
      HoldReason

pub data ExitReason : Type 0 where
  kill_switch bot_halted edge_negative converged take_profit max_holding_time signal_invalidated
        not_holding requested :
      ExitReason

-- `below_floor`: a rule asks for an exit, and the best bid is below its price.
pub data Evaluation : Type 0 where
  hold : HoldReason → Evaluation
  below_floor : ExitReason → Evaluation
  exit : ExitReason → Bool → ExitSignal → Evaluation

-- `fee_rate_at` of a price that is `x` of `whole`, in 1e-28
unfoldable pub fee_at : FeeSchedule → ℕ → ℕ → ℕ
fee_at s whole x =
    if x == 0 || leb whole x
    then 0
    else s.rate * (x * (whole - x)) ^ s.exponent * one / (10_000 * (whole * whole) ^ s.exponent)

abbrev pub bid_fee : FeeSchedule → ℕ → ℕ
bid_fee s = fee_at s one_price

abbrev pub probability_fee : FeeSchedule → ℕ → ℕ
probability_fee s = fee_at s 1_000_000

abbrev pub at_least : ℕ → ℕ → ℕ
at_least lowest x = if leb lowest x then x else lowest

-- `max(min_exit_price, ceil_to_tick(amount, tick))`
unfoldable pub ceil_price : ExitPolicyConfig → ℕ → ℕ → ℕ
ceil_price cfg tick amount =
    at_least cfg.min_exit_price (ceil_to_tick amount (tick * price_scale) / price_scale)

unfoldable pub floor_price : ExitPolicyConfig → ℕ → ℕ → ℕ
floor_price cfg tick amount =
    at_least cfg.min_exit_price (floor_to_tick amount (tick * price_scale) / price_scale)

-- `value_floor`
abbrev pub value_floor : ExitPolicyConfig → FeeSchedule → ℕ → Estimate → ℕ
value_floor cfg fees tick e =
    ceil_price cfg tick
      (e.fair * millionth + probability_fee fees e.fair - cfg.convergence_tolerance)

-- `risk_floor`
abbrev pub risk_floor : ExitPolicyConfig → ℕ → Estimate → ℕ
risk_floor cfg tick e =
    floor_price cfg tick
      (at_least (cfg.min_exit_price * price_scale) (e.lower * millionth - cfg.risk_exit_discount))

-- The floor of a take profit
abbrev pub profit_floor : ExitPolicyConfig → FeeSchedule → ℕ → Estimate → ℕ
profit_floor cfg fees tick e =
    ceil_price cfg tick (e.lower * millionth + probability_fee fees e.lower)

-- What the rules find: nothing yet, a hold, or an exit with its lowest price and its urgency.
pub data Rule : Type 0 where
  nothing : Rule
  holds : HoldReason → Rule
  sells : ExitReason → ℕ → Bool → Rule

-- The three rules of the state, the value and the time, each after the one before has found
-- nothing.
abbrev pub state_rule : ExitPolicyConfig → ℕ → BotState → Bool → Rule
state_rule cfg risk state kill =
    if kill || same_state state BotState.kill_switch
    then (if cfg.on_kill_switch_exit then sells kill_switch risk true else holds kill_switch_policy)
    else if same_state state BotState.halted
    then (if cfg.on_halt_exit then sells bot_halted risk true else holds halt_policy)
    else nothing

-- `gross` is the bid; the fee is moved to the other side of each test.
unfoldable pub value_rule : ExitPolicyConfig → FeeSchedule → ℕ → HeldPosition → Estimate → ℕ → Rule
value_rule cfg fees tick p e bid =
    let gross = bid * price_scale in
    let fee = bid_fee fees bid in
    if ltb (e.upper * millionth + fee) gross
    then sells edge_negative (value_floor cfg fees tick e) false
    else if leb (e.fair * millionth + fee) (gross + cfg.convergence_tolerance)
    then sells converged (value_floor cfg fees tick e) false
    else if leb (p.avg_entry_price + cfg.take_profit_per_share + fee) gross
        && leb (e.lower * millionth + fee) gross
    then sells take_profit (profit_floor cfg fees tick e) false
    else nothing

abbrev pub earliest : Option ℕ → Option ℕ → Option ℕ
earliest none t = t
earliest (some s) none = some s
earliest (some s) (some t) = some (if leb s t then s else t)

abbrev pub reached : ℕ → Option ℕ → Bool
reached held none = false
reached held (some limit) = leb limit held

unfoldable pub time_rule :
    ExitPolicyConfig → FeeSchedule → ℕ → HeldPosition → Estimate → ℕ → ℕ → Rule
time_rule cfg fees tick p e bid now =
    if reached (now - p.opened_ms) (earliest cfg.max_holding_time_ms p.max_holding_ms)
    then sells max_holding_time (risk_floor cfg tick e) false
    else if ltb (e.upper * millionth + cfg.invalidation_margin) p.avg_entry_price
    then (if cfg.invalidation_exit_always
        then sells signal_invalidated (risk_floor cfg tick e) false
        else holds invalidated)
    else if not cfg.hold_to_resolution
        && leb (e.lower * millionth + bid_fee fees bid) (bid * price_scale)
    then sells not_holding (value_floor cfg fees tick e) false
    else nothing

abbrev pub or_rule : Rule → Rule → Rule
or_rule nothing r = r
or_rule (holds why) r = holds why
or_rule (sells why price urgent) r = sells why price urgent

unfoldable pub rule :
    ExitPolicyConfig → FeeSchedule → ℕ → HeldPosition → Estimate → BotState → Bool → ℕ → ℕ → Rule
rule cfg fees tick p e state kill bid now =
    or_rule (state_rule cfg (risk_floor cfg tick e) state kill)
      (or_rule (value_rule cfg fees tick p e bid) (time_rule cfg fees tick p e bid now))

abbrev pub signal : HeldPosition → ℕ → ℕ → ExitSignal
signal p price now = record {
  token_id = p.token_id;
  condition_id = p.condition_id;
  shares = p.shares;
  min_price = some price;
  timestamp_ms = now;
}

-- The end of both evaluations: the best bid against the lowest price of the rule
abbrev pub conclude : HeldPosition → ℕ → ℕ → Rule → Evaluation
conclude p bid now nothing = hold no_rule
conclude p bid now (holds why) = hold why
conclude p bid now (sells why price urgent) =
    if ltb bid price then below_floor why else exit why urgent (signal p price now)

-- The best bid of a book that is valid and fresh
abbrev fresh_bid : Bool → ℕ → Option ℕ → Option ℕ → Option ℕ
fresh_bid true limit (some age) (some bid) = if ltb limit age then none else some bid
fresh_bid _ limit age bid = none

abbrev pub usable_bid : ExitPolicyConfig → TokenQuote → Option ℕ
usable_bid cfg q = fresh_bid q.book_valid cfg.exit_stale_data_ms q.book_age_ms q.best_bid

abbrev pub usable_estimate : Option Estimate → Option Estimate
usable_estimate none = none
usable_estimate (some e) = if e.is_ok then some e else none

abbrev pub with_estimate : (Estimate → Evaluation) → Option Estimate → Evaluation
with_estimate f none = hold no_fair_value
with_estimate f (some e) = f e

abbrev pub with_bid : (ℕ → Evaluation) → Option ℕ → Evaluation
with_bid f none = hold stale_book
with_bid f (some bid) = f bid

-- The `KeyError` of `quote` is `none`.
abbrev pub with_quote : (TokenQuote → Evaluation) → Option TokenQuote → Option Evaluation
with_quote f none = none
with_quote f (some q) = some (f q)

-- The tests on the snapshot that stand before its quote is looked up
abbrev pub too_early : ExitPolicyConfig → HeldPosition → MarketSnapshot → Option HoldReason
too_early cfg p s =
    if leb_ℤ s.time_to_expiry_ms (pos cfg.no_exit_window_ms)
    then some resolution_imminent
    else if ltb p.shares s.market.min_order_size
    then some below_min_order_size
    else none

abbrev pub unless : Option HoldReason → Option Evaluation → Option Evaluation
unless none v = v
unless (some why) v = some (hold why)

abbrev pub priced :
    ExitPolicyConfig
    → HeldPosition
    → MarketSnapshot
    → Option Estimate
    → (ℕ → Estimate → Rule)
    → ℕ
    → Option Evaluation
priced cfg p s estimate rules now = unless (too_early cfg p s) (
    with_quote
      (λ q.
        with_bid
          (λ bid. with_estimate (λ e. conclude p bid now (rules bid e)) (usable_estimate estimate))
          (usable_bid cfg q))
      (quote s p.outcome))

abbrev pub on_snapshot :
    (MarketSnapshot → Option Evaluation) → Option MarketSnapshot → Option Evaluation
on_snapshot f none = some (hold no_snapshot)
on_snapshot f (some s) = f s

unfoldable pub evaluate :
    ExitPolicyConfig
    → HeldPosition
    → Option MarketSnapshot
    → Option Estimate
    → BotState
    → Bool
    → Bool
    → ℕ
    → Option Evaluation
evaluate cfg p snapshot estimate state kill account_anomaly now =
    if p.shares == 0
    then some (hold no_position)
    else if account_anomaly
    then some (hold account_anomaly_hold)
    else on_snapshot
        (λ s.
          priced cfg p s estimate
            (λ bid e. rule cfg s.market.fee_schedule s.market.tick_size p e state kill bid now) now)
        snapshot

abbrev pub has_value : Option Estimate → Bool
has_value none = false
has_value (some e) = e.is_ok

-- `forced_exit`: the one rule is a sale at the risk floor.
unfoldable pub forced_exit :
    ExitPolicyConfig
    → HeldPosition
    → Option MarketSnapshot
    → Option Estimate
    → ℕ
    → Option Evaluation
forced_exit cfg p snapshot estimate now =
    if p.shares == 0 || not (has_value estimate)
    then some (hold no_fair_value)
    else on_snapshot
        (λ s.
          priced cfg p s estimate
            (λ bid e. sells requested (risk_floor cfg s.market.tick_size e) false) now)
        snapshot
