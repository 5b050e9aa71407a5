-- ===== src/Paper/Fills.antt =====
-- The loops of `_match` and `_available` of src/polymarket_bot/adapters/paper_exchange.py, and
-- `taker_fee` of domain/market.py.
use claude_route.Base.{
  ℕ, ◌+◌, ◌-◌, ◌*◌, ◌/◌, String, Bool, true, false, not, ◌&&◌, ◌||◌, List, [], ◌∷◌, filter, any,
  ltb, leb, ◌==◌, str_eq, if◌then◌else◌,
}
use claude_route.Domain.Orders.{share_lot}
use claude_route.Domain.Market.{FeeSchedule, fee_rate_at}
use claude_route.Book.Levels.{LevelMap}

-- `FEE_QUANTUM`, 0.00001 USD
abbrev pub fee_quantum : ℕ
fee_quantum = 100_000

-- `taker_fee` with `conservative=True`: rounded up to the quantum. The raw fee is
-- shares * num / den in units of 0.000001 USD, which is a tenth of the quantum.
unfoldable pub taker_fee : FeeSchedule → ℕ → ℕ → ℕ
taker_fee s shares price =
    let rate = fee_rate_at s price in
    (shares * rate.num + (rate.den * 10 - 1)) / (rate.den * 10) * fee_quantum

-- An entry of `_consumed` with its key
pub record Consumption : Type 0 where
  pub token_id : String
  pub is_ask : Bool
  pub price : ℕ
  pub ts_ms : ℕ
  pub size : ℕ

abbrev same_side : Bool → Bool → Bool
same_side true b = b
same_side false b = not b

abbrev pub is_at : String → Bool → ℕ → Consumption → Bool
is_at token is_ask price c =
    str_eq c.token_id token && same_side c.is_ask is_ask && c.price == price

-- `t > now - replenish`
abbrev pub is_recent : ℕ → ℕ → Consumption → Bool
is_recent replenish now c = ltb now (c.ts_ms + replenish)

-- `sum(s for _, s in recent)`
abbrev pub used_at : ℕ → ℕ → String → Bool → ℕ → List Consumption → ℕ
used_at replenish now token is_ask price [] = 0
used_at replenish now token is_ask price (c ∷ cs) =
    let rest = used_at replenish now token is_ask price cs in
    if is_at token is_ask price c && is_recent replenish now c then c.size + rest else rest

-- `_available`: displayed sizes less the own recent consumption; a difference below zero offers
-- nothing.
abbrev pub available : ℕ → Bool → ℕ → String → List Consumption → LevelMap → LevelMap
available replenish is_ask now token consumed [] = []
available replenish is_ask now token consumed ((price, size) ∷ ls) =
    (price, size - used_at replenish now token is_ask price consumed)
    ∷ available replenish is_ask now token consumed ls

-- What `_available` leaves of `_consumed`: of the keys that it looks up, the recent entries
abbrev pub remaining_consumed :
    ℕ → Bool → ℕ → String → LevelMap → List Consumption → List Consumption
remaining_consumed replenish is_ask now token levels =
    filter (λ c. is_recent replenish now c || not (any (λ l. is_at token is_ask l.0 c) levels))

abbrev pub total_size : LevelMap → ℕ
total_size [] = 0
total_size ((price, size) ∷ fs) = size + total_size fs

-- `min(size, (budget / price).quantize(SHARE_Q, rounding=ROUND_FLOOR))`
abbrev pub affordable : ℕ → ℕ → ℕ → ℕ
affordable budget price size =
    let lots = budget / (price * share_lot) * share_lot in if leb lots size then lots else size

abbrev pub with_fill : ℕ → ℕ → LevelMap × ℕ → LevelMap × ℕ
with_fill price size (fs, left) = ((price, size) ∷ fs, left)

-- The fills of a purchase and what is left of its budget
abbrev pub buy_loop : ℕ → ℕ → LevelMap → LevelMap × ℕ
buy_loop limit budget [] = ([], budget)
buy_loop limit budget ((price, size) ∷ ls) =
    let take = affordable budget price size in
    let skipped = buy_loop limit budget ls in
    let bought = buy_loop limit (budget - take * price) ls in
    if ltb limit price || budget == 0
    then ([], budget)
    else if size == 0 || take == 0
    then skipped
    else with_fill price take bought

abbrev last_price : ℕ → LevelMap → ℕ
last_price p [] = p
last_price p ((price, size) ∷ fs) = last_price price fs

-- Complete when not even one more lot is affordable at the last price
abbrev pub buys_all : LevelMap → ℕ → Bool
buys_all [] budget = false
buys_all ((price, size) ∷ fs) budget = ltb budget (last_price price fs * share_lot)

-- The fills of a sale and the shares that are left
abbrev pub sell_loop : ℕ → ℕ → LevelMap → LevelMap × ℕ
sell_loop limit left [] = ([], left)
sell_loop limit left ((price, size) ∷ ls) =
    let take = if leb size left then size else left in
    let skipped = sell_loop limit left ls in
    let sold = sell_loop limit (left - take) ls in
    if ltb price limit || left == 0
    then ([], left)
    else if size == 0
    then skipped
    else with_fill price take sold
