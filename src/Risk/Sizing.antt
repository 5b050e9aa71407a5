-- ===== src/Risk/Sizing.antt =====
-- The sizing of an entry: the section "sizing" of `evaluate_entry`. A difference that the code checks
-- to be positive, and takes a size of zero from otherwise, is truncated at zero. The cash cap is a
-- fraction, exact where the code divides to 28 digits.
pub mod Caps
use claude_route.Base.{
  ℕ, ◌+◌, ◌-◌, ◌*◌, ◌/◌, String, Bool, true, false, not, ◌&&◌, Option, none, some, List, [], ◌∷◌,
  any, ltb, leb, ◌==◌, str_eq, length, count, if◌then◌else◌,
}
use Prim.Native.Nat.{min}
use claude_route.Base.Int.{ℤ, pos, ◌-ℤ◌, pos_part, leb_ℤ}
use claude_route.Base.Dict.{Dict, lookup, values}
use claude_route.Domain.Orders.{one_price, usd_cent, share_lot}
use claude_route.Domain.Market.{Fraction}
use claude_route.Risk.Policy.{RiskPolicy}
use claude_route.Risk.Loss.{million}
use claude_route.Risk.Views.{
  PositionView, PortfolioView, EntryContext, TradeCandidate, exposure_usd,
}

abbrev cost_in : Option PositionView → ℕ
cost_in none = 0
cost_in (some p) = p.cost_basis_usd

abbrev pub existing_cost : TradeCandidate → PortfolioView → ℕ
existing_cost c f = cost_in (lookup c.token_id f.positions)

-- `mult if ZERO <= mult <= ONE else ZERO`
abbrev pub is_unit : ℤ → Bool
is_unit m = leb_ℤ (pos 0) m && leb_ℤ m (pos million)

abbrev pub multiplier : ℤ → ℕ
multiplier m = if is_unit m then pos_part m else 0

-- `available_cash`, truncated
unfoldable pub available_cash : RiskPolicy → PortfolioView → ℕ
available_cash p f = pos_part (f.cash_usd -ℤ pos (f.pending_buy_usd + p.min_balance_reserve_usd))

-- `fee_factor`: (den * limit + num) / (den * limit), in units where a price of one is `one_price`
abbrev pub fee_part : ℕ → Fraction → ℕ
fee_part limit fee = if ltb 0 limit then one_price * fee.num else 0

abbrev pub price_part : ℕ → Fraction → ℕ
price_part limit fee = if ltb 0 limit then fee.den * limit else 1

-- `caps["cash"]`
abbrev pub cash_cap : ℕ → ℕ → Fraction → Fraction
cash_cap cash limit fee = record {
  num = cash * price_part limit fee;
  den = price_part limit fee + fee_part limit fee;
}

-- The caps but the last, and the least of them.
abbrev pub position_cap : RiskPolicy → TradeCandidate → PortfolioView → ℕ
position_cap p c f = p.max_position_usd - existing_cost c f

unfoldable pub exposure_cap : RiskPolicy → PortfolioView → ℕ
exposure_cap p f = p.max_total_exposure_usd - exposure_usd f

unfoldable pub whole_cap : RiskPolicy → TradeCandidate → PortfolioView → ℕ
unfolding exposure_cap
whole_cap p c f =
    min c.notional_usd (min p.max_order_size_usd (min (position_cap p c f) (exposure_cap p f)))

-- `min(caps.values())`
abbrev pub least : ℕ → Fraction → Fraction
least n q = if leb (n * q.den) q.num then record { num = n; den = 1 } else q

-- The product with the multiplier, rounded down to a cent.
unfoldable pub floor_cents : Fraction → ℕ → ℕ
floor_cents q mult = (q.num * mult / (q.den * (million * usd_cent))) * usd_cent

unfoldable pub size_of : RiskPolicy → TradeCandidate → EntryContext → Fraction → ℕ
unfolding floor_cents whole_cap available_cash
size_of p c x fee =
    floor_cents
      (least (whole_cap p c x.portfolio)
        (cash_cap (available_cash p x.portfolio) c.worst_price fee))
      (multiplier x.llm_size_multiplier)

-- `shares_at_limit >= least`, multiplied out
abbrev pub enough_shares : ℕ → ℕ → ℕ → Bool
enough_shares size limit n = if ltb 0 limit then leb (n * limit) size else n == 0

-- `shares_at_limit.quantize(0.01, ROUND_FLOOR)`
abbrev pub floor_shares : ℕ → ℕ → ℕ
floor_shares size limit = if ltb 0 limit then (size / (limit * share_lot)) * share_lot else 0

-- `tokens_in_market`, a set
abbrev pub add_token : String → List String → List String
add_token t ts = if any (str_eq t) ts then ts else t ∷ ts

unfoldable pub tokens_in_market : TradeCandidate → List PositionView → List String
tokens_in_market c [] = c.token_id ∷ []
tokens_in_market c (p ∷ ps) =
    let rest = tokens_in_market c ps in
    if str_eq p.condition_id c.condition_id && ltb 0 p.shares
    then add_token p.token_id rest
    else rest

unfoldable pub open_count : Dict PositionView → ℕ
open_count ps = count (λ p. ltb 0 p.shares) (values ps)
