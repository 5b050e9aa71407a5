-- ===== src/Domain/Market.antt =====
-- Market definitions of src/polymarket_bot/domain/market.py. Prices count 0.0001, shares 0.000001.
use Prim.Native.Nat.{◌^◌}
use claude_route.Base.{
  ℕ, ◌-◌, ◌*◌, String, Bool, not, ◌||◌, Option, none, some, List, [], ◌∷◌, any, leb, ◌==◌, str_eq,
  Result, ok, err, if◌then◌else◌,
}
use claude_route.Domain.Orders.{one_price}

-- 0.1, 0.01, 0.005, 0.0025, 0.001 and 0.0001
abbrev pub allowed_tick_sizes : List ℕ
allowed_tick_sizes = 1000 ∷ 100 ∷ 50 ∷ 25 ∷ 10 ∷ 1 ∷ []

-- `rate` counts 0.0001. The exponents that Polymarket publishes are whole.
pub record FeeSchedule : Type 0 where
  pub rate : ℕ
  pub exponent : ℕ

-- A fee per share as a fraction: `num / den` USD.
pub record Fraction : Type 0 where
  pub num : ℕ
  pub den : ℕ

-- `fee_rate_at`: rate * (p * (1 - p)) ** exponent, exactly
unfoldable pub fee_rate_at : FeeSchedule → ℕ → Fraction
fee_rate_at s price =
    if price == 0 || leb one_price price then record { num = 0; den = 1 } else record {
      num = s.rate * (price * (one_price - price)) ^ s.exponent;
      den = 10_000 * 100_000_000 ^ s.exponent;
    }

pub record OutcomeToken : Type 0 where
  pub token_id : String
  pub outcome : String

pub record MarketDefinition : Type 0 where
  pub condition_id : String
  pub slug : String
  pub first : OutcomeToken
  pub second : OutcomeToken
  pub window_start_ms : ℕ
  pub window_end_ms : ℕ
  pub tick_size : ℕ
  pub min_order_size : ℕ
  pub fee_schedule : FeeSchedule
  pub rule_id : String
  pub accepting_orders : Bool

pub data MarketError : Type 0 where
  unsupported_tick empty_window same_tokens no_min_order_size : MarketError

-- `MarketDefinition.__post_init__`
unfoldable pub make_market : MarketDefinition → Result MarketError MarketDefinition
make_market m =
    if not (any (λ t. t == m.tick_size) allowed_tick_sizes)
    then err unsupported_tick
    else if leb m.window_end_ms m.window_start_ms
    then err empty_window
    else if str_eq m.first.token_id m.second.token_id
    then err same_tokens
    else if m.min_order_size == 0
    then err no_min_order_size
    else ok m

-- `outcome_of`; `none` is the `KeyError`
unfoldable pub outcome_of : MarketDefinition → String → Option String
outcome_of m token =
    if str_eq m.first.token_id token
    then some m.first.outcome
    else if str_eq m.second.token_id token
    then some m.second.outcome
    else none
