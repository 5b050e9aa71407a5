-- ===== src/Portfolio/Tests.antt =====
-- A portfolio through a purchase, a sale and a settlement.
use claude_route.Base.{
  ℕ, ◌-◌, ◌≡◌, ◌⊎◌, refl, true, false, none, some, List, [], ◌∷◌, ltb, str_eq, err, if◌then◌else◌,
}
use claude_route.Base.Int.{pos, ◌+ℤ◌, ◌-ℤ◌, max_ℤ}
use claude_route.Base.Dict.{lookup, insert, erase}
use claude_route.Domain.Types.{Side}
use claude_route.Domain.Orders.{Fill}
use claude_route.Portfolio.{
  Portfolio, with_cash, apply_fill, buy, sell_position, sell_writes, cost_removed, close, take_bids,
  value, conservative, settle_each, settle_position, settle_writes, settle, mark, exposure_usd,
  sells_more_than_held,
}
use claude_route.Portfolio.Conservation.{IsValid, apply_fill-Conserves}
use claude_route.Portfolio.Settlement.{
  Event, fill_event, settle_event, mark_event, on_event, run, cash_identity,
}
use claude_route.Portfolio.Holdings.{held, sell_holdings}
use claude_route.Portfolio.Rounding.{round_half_even}

abbrev fill : Side → ℕ → Fill
fill side shares = record {
  fill_id = "f";
  intent_id = some "i";
  exchange_order_id = none;
  condition_id = "c";
  token_id = "t";
  outcome = "Up";
  side = side;
  price = 5_000;
  shares = shares;
  fee_usd = 100;
  ts_ms = 1;
}

abbrev hundred : Portfolio
hundred = with_cash (pos 1_000_000_000_000) 0

abbrev holding : Portfolio
holding = (apply_fill (fill Side.buy 2_000_000) "m" 9 hundred).1

abbrev events : List Event
events =
    fill_event (fill Side.buy 2_000_000) "m" 9
    ∷ mark_event (("t", some 6_000) ∷ []) 2
    ∷ fill_event (fill Side.sell 1_000_000) "m" 9
    ∷ settle_event "c" "Up" 4
    ∷ []

run-events : (run hundred events).cash_usd ≡ pos 1_004_999_999_800
unfolding run on_event apply_fill buy sell_position sell_writes cost_removed close mark take_bids
    value conservative settle settle_each settle_position settle_writes with_cash lookup insert
    erase ◌+ℤ◌ ◌-ℤ◌ max_ℤ round_half_even
run-events = refl

hundred-IsValid : IsValid hundred
unfolding with_cash
hundred-IsValid = record { distinct = tt; keyed = tt }

holding-IsValid : IsValid holding
holding-IsValid =
    (apply_fill-Conserves (fill Side.buy 2_000_000) "m" 9 hundred hundred-IsValid).valid

cash_identity_example :
    let f = run (with_cash (pos 1_000_000_000_000) 0) events in
    f.cash_usd ≡ pos 1_000_000_000_000 +ℤ f.realized_pnl_usd -ℤ pos (exposure_usd f.positions)
cash_identity_example = cash_identity (pos 1_000_000_000_000) 0 events

sell_holdings_example :
    let ask = fill Side.sell 1_000_000 in
    let (r, f') = apply_fill ask "m" 9 holding in
    let short = ltb (held ask.token_id holding) ask.shares in
    ((short ≡ true) × (r ≡ err sells_more_than_held) × (f' ≡ holding))
    ⊎ ((short ≡ false)
        × (held "t" f' ≡ (
            if str_eq ask.token_id "t" then held "t" holding - ask.shares else held "t" holding)))
sell_holdings_example =
    sell_holdings (fill Side.sell 1_000_000) "m" 9 "t" holding refl holding-IsValid.keyed
