-- ===== src/Paper.antt =====
-- `PaperExchange` of src/polymarket_bot/adapters/paper_exchange.py. Prices count 0.0001, shares
-- 0.000001 and USD 1e-10; `fee_multiplier` counts 0.01. The random numbers (the jitter, the simulated
-- rejection, the id of an order) are arguments. The dict of the own consumption, from a token, a side
-- and a price to a list, is one list of entries with their key.
pub mod Fills
pub mod Bounds
pub mod Advance
mod Tests
use claude_route.Base.{
  ℕ, suc, ◌+◌, ◌-◌, ◌*◌, ◌/◌, ◌%◌, String, Bool, true, false, not, ◌&&◌, ◌||◌, Option, none, some,
  List, [], ◌∷◌, ◌++◌, map, any, filter, is_empty, length, ltb, leb, ◌==◌, str_eq, value_or, Result,
  ok, err, if◌then◌else◌,
}
use claude_route.Base.Text.{◌<>◌, decimal}
use claude_route.Base.Int.{ℤ, pos, ◌+ℤ◌, ◌-ℤ◌, ltb_ℤ, leb_ℤ, pos_part, neg_part}
use claude_route.Base.Dict.{Dict, lookup, insert, erase}
use claude_route.Domain.Types.{Side, OrderType, OrderStatus}
use claude_route.Domain.Orders.{OrderIntent, OrderAck, Fill, OrderUpdate, ExecutionEvent, share_lot}
use claude_route.Domain.Market.{FeeSchedule, MarketDefinition, fee_rate_at}
use claude_route.Book.Levels.{LevelMap}
use claude_route.Book.Snapshot.{OrderBookSnapshot}
use claude_route.Paper.Fills.{
  Consumption, available, remaining_consumed, buy_loop, sell_loop, buys_all, total_size, taker_fee,
}

pub record PaperConfig : Type 0 where
  pub latency_ms : ℕ
  pub taker_delay_ms : ℕ
  pub liquidity_replenish_ms : ℕ
  pub fee_multiplier : ℕ

pub record Pending : Type 0 where
  pub intent : OrderIntent
  pub order_id : String
  pub due_ms : ℕ
  pub fees : FeeSchedule
  pub tick : ℕ

pub record PaperExchange : Type 0 where
  pub cash_usd : ℤ
  pub positions : Dict ℤ
  pub pending : List Pending
  pub events : List ExecutionEvent
  pub history : List (String × ExecutionEvent)
  pub consumed : List Consumption
  pub submitted : ℕ

pub data Rejection : Type 0 where
  unsupported_order_type unknown_token limit_not_on_tick not_enough_balance not_enough_shares
        no_amount simulated :
      Rejection

abbrev pub is_fok : OrderType → Bool
is_fok OrderType.fok = true
is_fok _ = false

abbrev is_immediate : OrderType → Bool
is_immediate OrderType.fak = true
is_immediate OrderType.fok = true
is_immediate _ = false

-- `buy_amount_usd * (1 + worst_fee) > cash_usd`, with the fractions multiplied out
abbrev exceeds_cash : PaperConfig → MarketDefinition → ℕ → ℕ → ℤ → Bool
exceeds_cash cfg m limit amount cash =
    let rate = fee_rate_at m.fee_schedule limit in
    ltb ((pos_part cash) * rate.den * limit) (
      amount * (rate.den * limit + rate.num * cfg.fee_multiplier * 100)
      + neg_part cash * rate.den * limit)

abbrev buy_rejection : PaperConfig → MarketDefinition → ℕ → Option ℕ → ℤ → Option Rejection
buy_rejection cfg m limit none cash = some no_amount
buy_rejection cfg m limit (some amount) cash =
    if exceeds_cash cfg m limit amount cash then some not_enough_balance else none

abbrev pub position_of : String → Dict ℤ → ℤ
position_of token d = value_or (lookup token d) (pos 0)

abbrev sell_rejection : Option ℕ → ℤ → Option Rejection
sell_rejection none held = some no_amount
sell_rejection (some shares) held = if ltb_ℤ held (pos shares) then some not_enough_shares else none

abbrev side_rejection :
    Side → PaperConfig → OrderIntent → MarketDefinition → PaperExchange → Option Rejection
side_rejection Side.buy cfg i m x = buy_rejection cfg m i.limit_price i.buy_amount_usd x.cash_usd
side_rejection Side.sell cfg i m x =
    sell_rejection i.sell_shares (position_of i.token_id x.positions)

-- `_validate`
unfoldable pub validate :
    PaperConfig → OrderIntent → MarketDefinition → PaperExchange → Option Rejection
validate cfg i m x =
    if not (is_immediate i.order_type)
    then some unsupported_order_type
    else if not (str_eq m.first.token_id i.token_id || str_eq m.second.token_id i.token_id)
    then some unknown_token
    else if not (i.limit_price % m.tick_size == 0)
    then some limit_not_on_tick
    else side_rejection i.side cfg i m x

abbrev or_simulated : Bool → Option Rejection → Option Rejection
or_simulated chaos (some r) = some r
or_simulated chaos none = if chaos then some simulated else none

-- The answer of `submit`: why it is rejected, or the id of the order
abbrev accept :
    Option Rejection
    → PaperConfig
    → ℕ
    → ℕ
    → String
    → OrderIntent
    → MarketDefinition
    → PaperExchange
    → Result Rejection String × PaperExchange
accept (some r) cfg now jitter order_id i m x = (err r, x)
accept none cfg now jitter order_id i m x = (
  ok order_id,
  record x {
    pending =
        x.pending
        ++ (record {
          intent = i;
          order_id = order_id;
          due_ms = now + cfg.latency_ms + jitter + cfg.taker_delay_ms;
          fees = m.fee_schedule;
          tick = m.tick_size;
        })
          ∷ [];
  },
)

unfoldable pub submit :
    PaperConfig
    → ℕ
    → ℕ
    → Bool
    → String
    → OrderIntent
    → MarketDefinition
    → PaperExchange
    → Result Rejection String × PaperExchange
submit cfg now jitter chaos order_id i m x =
    accept (or_simulated chaos (validate cfg i m x)) cfg now jitter order_id i m
      (record x { submitted = suc x.submitted })

-- `_emit`
abbrev pub emit : String → ExecutionEvent → PaperExchange → PaperExchange
emit token e x = record x { events = x.events ++ e ∷ []; history = x.history ++ (token, e) ∷ [] }

abbrev pub update_of : Pending → OrderStatus → ℕ → ℕ → String → ExecutionEvent
update_of p status cum now detail = ExecutionEvent.update (record {
  exchange_order_id = p.order_id;
  intent_id = some p.intent.intent_id;
  status = status;
  cumulative_filled_shares = cum;
  ts_ms = now;
  detail = detail;
})

-- What a match finds: the fills, price by price, and whether they complete the order
abbrev pub Found : Type 0
Found = LevelMap × Bool

abbrev pub find_side : Side → OrderIntent → LevelMap → LevelMap → Found
find_side Side.buy i asks bids =
    let (fills, budget) = buy_loop i.limit_price (value_or i.buy_amount_usd 0) asks in
    (fills, buys_all fills budget)
find_side Side.sell i asks bids =
    let (fills, left) = sell_loop i.limit_price (value_or i.sell_shares 0) bids in
    (fills, left == 0)

-- FOK fills entirely or not at all.
abbrev pub keep_fok : Bool → Found → Found
keep_fok fok (fills, complete) = if fok && not complete then ([], complete) else (fills, complete)

unfoldable pub find_fills :
    PaperConfig → OrderIntent → OrderBookSnapshot → ℕ → List Consumption → Found
find_fills cfg i book now consumed = keep_fok (is_fok i.order_type) (
    find_side i.side i
      (available cfg.liquidity_replenish_ms true now book.token_id consumed book.asks)
      (available cfg.liquidity_replenish_ms false now book.token_id consumed book.bids))

abbrev pub is_buy : Side → Bool
is_buy Side.buy = true
is_buy Side.sell = false

abbrev pub fee_of : PaperConfig → Pending → ℕ → ℕ → ℕ
fee_of cfg p price size = taker_fee p.fees size price * cfg.fee_multiplier / 100

abbrev pub cash_after : Side → ℕ → ℕ → ℤ → ℤ
cash_after Side.buy notional fee cash = cash -ℤ pos (notional + fee)
cash_after Side.sell notional fee cash = cash +ℤ pos notional -ℤ pos fee

abbrev pub shares_after : Side → ℕ → ℤ → ℤ
shares_after Side.buy size held = held +ℤ pos size
shares_after Side.sell size held = held -ℤ pos size

abbrev pub fill_of : Pending → ℕ → ℕ → ℕ → ℕ → ℕ → ExecutionEvent
fill_of p now index price size fee = ExecutionEvent.fill (record {
  fill_id = p.order_id <> "-" <> decimal index;
  intent_id = some p.intent.intent_id;
  exchange_order_id = some p.order_id;
  condition_id = p.intent.condition_id;
  token_id = p.intent.token_id;
  outcome = p.intent.outcome;
  side = p.intent.side;
  price = price;
  shares = size;
  fee_usd = fee;
  ts_ms = now;
})

-- One fill of the loop: consumption, cash, position and event
unfoldable pub book_fill : PaperConfig → Pending → ℕ → ℕ → ℕ → ℕ → PaperExchange → PaperExchange
book_fill cfg p now index price size x =
    let i = p.intent in
    let fee = fee_of cfg p price size in
    emit i.token_id (fill_of p now index price size fee) (record x {
      consumed =
          x.consumed
          ++ (record {
            token_id = i.token_id;
            is_ask = is_buy i.side;
            price = price;
            ts_ms = now;
            size = size;
          })
            ∷ [];
      cash_usd = cash_after i.side (price * size) fee x.cash_usd;
      positions =
          insert i.token_id (shares_after i.side size (position_of i.token_id x.positions))
            x.positions;
    })

abbrev pub book_fills : PaperConfig → Pending → ℕ → ℕ → LevelMap → PaperExchange → PaperExchange
book_fills cfg p now index [] x = x
book_fills cfg p now index ((price, size) ∷ fs) x =
    book_fills cfg p now (suc index) fs (book_fill cfg p now index price size x)

abbrev pub conclude : PaperConfig → Pending → ℕ → Found → PaperExchange → PaperExchange
conclude cfg p now ([], complete) x =
    emit p.intent.token_id (update_of p OrderStatus.cancelled 0 now "no liquidity within limit") x
conclude cfg p now (f ∷ fs, complete) x =
    emit p.intent.token_id
      (update_of p (if complete then OrderStatus.filled else OrderStatus.cancelled)
        (total_size (f ∷ fs)) now "matched")
      (book_fills cfg p now 0 (f ∷ fs) x)

-- What looking for liquidity leaves behind
abbrev pub pruned : PaperConfig → OrderBookSnapshot → Pending → ℕ → PaperExchange → PaperExchange
pruned cfg book p now x = record x {
  consumed =
      remaining_consumed cfg.liquidity_replenish_ms (is_buy p.intent.side) now book.token_id
        (if is_buy p.intent.side then book.asks else book.bids) x.consumed;
}

-- `_match` against the book that the book source has for the token
unfoldable pub match_order :
    PaperConfig → Option OrderBookSnapshot → Pending → ℕ → PaperExchange → PaperExchange
match_order cfg none p now x =
    emit p.intent.token_id (update_of p OrderStatus.cancelled 0 now "no valid book") x
match_order cfg (some book) p now x =
    conclude cfg p now (find_fills cfg p.intent book now x.consumed) (pruned cfg book p now x)

abbrev pub is_due : ℕ → Pending → Bool
is_due now p = leb p.due_ms now

-- `sorted(..., key=lambda p: p.due_ms)`, which keeps the order of equal keys
abbrev pub insert_due : Pending → List Pending → List Pending
insert_due p [] = p ∷ []
insert_due p (q ∷ ps) =
    let rest = insert_due p ps in if ltb q.due_ms p.due_ms then q ∷ rest else p ∷ q ∷ ps

abbrev pub sort_due : List Pending → List Pending
sort_due [] = []
sort_due (p ∷ ps) = insert_due p (sort_due ps)

abbrev pub Books : Type 0
Books = String → Option OrderBookSnapshot

abbrev pub match_each : PaperConfig → Books → List Pending → PaperExchange → PaperExchange
match_each cfg books [] x = x
match_each cfg books (p ∷ ps) x =
    match_each cfg books ps (match_order cfg (books p.intent.token_id) p p.due_ms x)

-- `advance`; taking the due orders off the list one by one leaves those that are not due.
unfoldable pub advance : PaperConfig → Books → ℕ → PaperExchange → PaperExchange
advance cfg books now x =
    match_each cfg books (sort_due (filter (is_due now) x.pending))
      (record x { pending = filter (λ p. not (is_due now p)) x.pending })

-- `poll_events`
unfoldable pub poll_events :
    PaperConfig → Books → ℕ → PaperExchange → List ExecutionEvent × PaperExchange
poll_events cfg books now x =
    let x' = advance cfg books now x in (x'.events, record x' { events = [] })

-- `cancel`: the first pending order with that id; whether there is one
abbrev take_pending : String → List Pending → Option Pending × List Pending
take_pending id [] = (none, [])
take_pending id (p ∷ ps) =
    let (found, rest) = take_pending id ps in
    if str_eq p.order_id id then (some p, ps) else (found, p ∷ rest)

abbrev cancel_taken : ℕ → Option Pending × List Pending → PaperExchange → Bool × PaperExchange
cancel_taken now (none, ps) x = (false, x)
cancel_taken now (some p, ps) x = (
  true,
  emit p.intent.token_id (update_of p OrderStatus.cancelled 0 now "cancelled")
      (record x { pending = ps }),
)

unfoldable pub cancel : ℕ → String → PaperExchange → Bool × PaperExchange
cancel now id x = cancel_taken now (take_pending id x.pending) x

abbrev cancel_each : ℕ → List Pending → PaperExchange → PaperExchange
cancel_each now [] x = x
cancel_each now (p ∷ ps) x = cancel_each now ps (cancel now p.order_id x).1

-- `cancel_all`
unfoldable pub cancel_all : ℕ → PaperExchange → PaperExchange
cancel_all now x = cancel_each now x.pending x

abbrev event_ms : ExecutionEvent → ℕ
event_ms (ExecutionEvent.fill f) = f.ts_ms
event_ms (ExecutionEvent.update u) = u.ts_ms

-- `find_orders_since`
unfoldable pub find_orders_since : String → ℕ → PaperExchange → List ExecutionEvent
find_orders_since token since x =
    map (λ e. e.1) (filter (λ e. str_eq e.0 token && leb since (event_ms e.1)) x.history)

-- The payout of `settle`, and the exchange behind it
unfoldable pub settle : String → String → PaperExchange → ℤ × PaperExchange
settle winning losing x =
    let payout = position_of winning x.positions in
    (
      payout,
      record x {
        positions = erase losing (erase winning x.positions);
        cash_usd = x.cash_usd +ℤ times payout;
      },
    )
  where
    -- One share pays 1 USD: 0.000001 shares are 10000 units of 1e-10 USD.
    times : ℤ → ℤ
    times (ℤ.pos n) = ℤ.pos (n * 10_000)
    times (ℤ.negsuc n) = ℤ.negsuc (suc n * 10_000 - 1)
