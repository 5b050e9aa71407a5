-- ===== src/Paper/Tests.antt =====
-- The paper exchange on concrete orders.
use claude_route.Base.{
  ℕ, ◌*◌, ◌-◌, ◌≡◌, ◌⊎◌, refl, String, true, false, none, some, [], ◌∷◌, Result, ok, err,
}
use claude_route.Base.Text.{decimal}
use claude_route.Base.Int.{pos, ◌+ℤ◌, ◌-ℤ◌}
use claude_route.Base.Dict.{lookup, insert}
use claude_route.Domain.Types.{Side, OrderType, OrderPurpose}
use claude_route.Domain.Orders.{OrderIntent}
use claude_route.Domain.Market.{MarketDefinition, fee_rate_at}
use claude_route.Book.Snapshot.{OrderBookSnapshot}
use claude_route.Paper.Fills.{available, taker_fee}
use claude_route.Paper.{
  PaperConfig, PaperExchange, Books, Rejection, is_fok, validate, submit, find_fills, match_order,
  book_fill, advance,
}
use claude_route.Paper.Bounds.{WithinOrder, find_fills-WithinOrder}

abbrev one_usd : ℕ
one_usd = 10_000_000_000

abbrev config : PaperConfig
config = record {
  latency_ms = 150;
  taker_delay_ms = 50;
  liquidity_replenish_ms = 2_000;
  fee_multiplier = 100;
}

abbrev market : MarketDefinition
market = record {
  condition_id = "c";
  slug = "m";
  first = record { token_id = "t"; outcome = "Up" };
  second = record { token_id = "u"; outcome = "Down" };
  window_start_ms = 0;
  window_end_ms = 300_000;
  tick_size = 100;
  min_order_size = 5_000_000;
  fee_schedule = record { rate = 0; exponent = 1 };
  rule_id = "r";
  accepting_orders = true;
}

-- 10 USD at 0.52 or better
abbrev purchase : OrderType → OrderIntent
purchase kind = record {
  intent_id = "i";
  decision_id = "d";
  condition_id = "c";
  market_slug = "m";
  token_id = "t";
  outcome = "Up";
  side = Side.buy;
  order_type = kind;
  limit_price = 5_200;
  buy_amount_usd = some (10 * one_usd);
  sell_shares = none;
  purpose = OrderPurpose.entry;
  created_ms = 0;
}

abbrev book : OrderBookSnapshot
book = record {
  token_id = "t";
  bids = (4_900, 100_000_000) ∷ [];
  asks = (5_000, 10_000_000) ∷ (5_200, 5_000_000) ∷ (5_300, 100_000_000) ∷ [];
  received_ms = 0;
  exchange_ms = none;
  book_hash = none;
  tick_size = none;
  last_trade_price = none;
  sequence = 1;
}

abbrev start : PaperExchange
start = record {
  cash_usd = pos (200 * one_usd);
  positions = [];
  pending = [];
  events = [];
  history = [];
  consumed = [];
  submitted = 0;
}

-- 10 shares at 0.50 and 5 at 0.52: 7.60 USD of 10, and the next price is beyond the limit.
fills_part :
    find_fills config (purchase OrderType.fak) book 200 []
    ≡ ((5_000, 10_000_000) ∷ (5_200, 5_000_000) ∷ [], false)
unfolding find_fills
fills_part = refl

kills : find_fills config (purchase OrderType.fok) book 200 [] ≡ ([], false)
unfolding find_fills
kills = refl

abbrev submitted : Result Rejection String × PaperExchange
submitted = submit config 1_000 30 false "paper-1" (purchase OrderType.fak) market start

accepted : submitted.0 ≡ ok "paper-1"
unfolding submit validate fee_rate_at
accepted = refl

refused :
    (submit config 1_000 30 false "paper-1" (purchase OrderType.gtc) market start).0
    ≡ err Rejection.unsupported_order_type
unfolding submit validate
refused = refl

abbrev books : Books
books token = some book

cash_left : (advance config books 1_230 submitted.1).cash_usd ≡ pos (200 * one_usd - 76_000_000_000)
unfolding submit validate fee_rate_at advance match_order find_fills book_fill taker_fee ◌-ℤ◌ ◌+ℤ◌
    lookup insert decimal
cash_left = refl

waits : (advance config books 1_229 submitted.1).cash_usd ≡ pos (200 * one_usd)
unfolding submit validate fee_rate_at advance
waits = refl

find_fills-WithinOrder_example :
    let r = find_fills config (purchase OrderType.fok) book 200 [] in
    WithinOrder Side.buy
      (purchase OrderType.fok)
      (available 2_000 true 200 "t" [] book.asks)
      (available 2_000 false 200 "t" [] book.bids)
      r.0
    × ((is_fok OrderType.fok ≡ false) ⊎ (r.0 ≡ []) ⊎ (r.1 ≡ true))
find_fills-WithinOrder_example = find_fills-WithinOrder config (purchase OrderType.fok) book 200 []
