-- ===== src/Portfolio.antt =====
-- `Portfolio` of src/polymarket_bot/portfolio/portfolio.py. Amounts are in the units of
-- Domain.Orders; cash and profits are signed. A day is its number since the epoch, which differs
-- exactly when `_day`'s date string differs.
mod State
pub mod Dicts
mod Live
pub mod Rounding
pub mod Conservation
pub mod Settlement
pub mod Holdings
pub mod Marks
mod Tests
pub use State.*
use claude_route.Base.{
  ℕ, suc, ◌+◌, ◌-◌, ◌*◌, ◌/◌, String, Bool, true, false, not, ◌||◌, Option, none, some, List, [],
  ◌∷◌, ◌++◌, ltb, ◌==◌, value_or, str_eq, Result, ok, err, if◌then◌else◌,
}
use Prim.Native.Nat.{min}
use claude_route.Base.Int.{ℤ, pos, ◌+ℤ◌, ◌-ℤ◌, ltb_ℤ, max_ℤ}
use claude_route.Base.Dict.{Dict, lookup, insert, erase, contains, values}
use claude_route.Domain.Types.{Side}
use claude_route.Domain.Orders.{Fill}
use claude_route.Portfolio.Rounding.{round_half_even}

-- `with_cash`
unfoldable pub with_cash : ℤ → ℕ → Portfolio
with_cash cash now = record {
  cash_usd = cash;
  start_of_day_equity_usd = cash;
  peak_equity_usd = cash;
  equity_usd = cash;
  positions = [];
  closed_trades = [];
  realized_pnl_usd = pos 0;
  fees_paid_usd = 0;
  consecutive_losses = 0;
  last_loss_ms = none;
  current_day = day now;
  marks = [];
  risk_equity_usd = cash;
}

-- Pays 1 USD: one unit of shares is 0.000001, one of USD 1e-10.
abbrev pub usd_per_share : ℕ
usd_per_share = 10_000

-- 0.000001 USD
abbrev pub cash_tolerance : ℕ
cash_tolerance = 10_000

-- The trade that `_close` reports.
abbrev pub trade_of : Position → ℕ → ExitKind → ClosedTrade
trade_of p ts kind = record {
  token_id = p.token_id;
  condition_id = p.condition_id;
  outcome = p.outcome;
  market_slug = p.market_slug;
  opened_ms = p.opened_ms;
  closed_ms = ts;
  shares = p.entry_shares_total;
  cost_usd = p.entry_cost_total;
  proceeds_usd = pos p.entry_cost_total +ℤ p.realized_pnl_usd;
  fees_usd = p.fees_usd;
  pnl_usd = p.realized_pnl_usd;
  exit_kind = kind;
}

-- `_close`
unfoldable pub close : Position → ℕ → ExitKind → Portfolio → Portfolio
close p ts kind f =
    let loss = ltb_ℤ p.realized_pnl_usd (pos 0) in
    record f {
      closed_trades = f.closed_trades ++ trade_of p ts kind ∷ [];
      positions = erase p.token_id f.positions;
      marks = erase p.token_id f.marks;
      consecutive_losses = if loss then suc f.consecutive_losses else 0;
      last_loss_ms = if loss then some ts else f.last_loss_ms;
    }

-- A position that a first fill opens.
abbrev pub opened : Fill → String → ℕ → Position
opened fill slug window_end = record {
  token_id = fill.token_id;
  condition_id = fill.condition_id;
  outcome = fill.outcome;
  market_slug = slug;
  window_end_ms = window_end;
  shares = 0;
  cost_basis_usd = 0;
  realized_pnl_usd = pos 0;
  fees_usd = 0;
  opened_ms = fill.ts_ms;
  entry_shares_total = 0;
  entry_cost_total = 0;
}

abbrev pub cost_of : Fill → ℕ
cost_of fill = fill.price * fill.shares + fill.fee_usd

abbrev pub bought : Fill → Position → Position
bought fill p = record p {
  shares = p.shares + fill.shares;
  cost_basis_usd = p.cost_basis_usd + cost_of fill;
  fees_usd = p.fees_usd + fill.fee_usd;
  entry_shares_total = p.entry_shares_total + fill.shares;
  entry_cost_total = p.entry_cost_total + cost_of fill;
}

-- `apply_fill` of a BUY
unfoldable pub buy : Fill → Position → Portfolio → Portfolio
buy fill p f = record f {
  cash_usd = f.cash_usd -ℤ pos (cost_of fill);
  positions = insert fill.token_id (bought fill p) f.positions;
  fees_paid_usd = f.fees_paid_usd + fill.fee_usd;
}

abbrev pub proceeds_of : Fill → ℤ
proceeds_of fill = pos (fill.price * fill.shares) -ℤ pos fill.fee_usd

-- The part of the cost basis that a sale of `shares` takes with it, quantized to a unit.
unfoldable pub cost_removed : ℕ → Position → ℕ
cost_removed shares p =
    if shares == p.shares
    then p.cost_basis_usd
    else round_half_even (p.cost_basis_usd * shares) p.shares

abbrev pub sold : Fill → Position → Position
sold fill p =
    let removed = cost_removed fill.shares p in
    record p {
      shares = p.shares - fill.shares;
      cost_basis_usd = p.cost_basis_usd - removed;
      realized_pnl_usd = p.realized_pnl_usd +ℤ (proceeds_of fill -ℤ pos removed);
      fees_usd = p.fees_usd + fill.fee_usd;
    }

-- The writes of a SELL, before it closes the position.
unfoldable pub sell_writes : Fill → Position → Portfolio → Portfolio
sell_writes fill p f = record f {
  cash_usd = f.cash_usd +ℤ proceeds_of fill;
  positions = insert fill.token_id (sold fill p) f.positions;
  realized_pnl_usd = f.realized_pnl_usd +ℤ (proceeds_of fill -ℤ pos (cost_removed fill.shares p));
  fees_paid_usd = f.fees_paid_usd + fill.fee_usd;
}

abbrev pub Outcome : Type 0
Outcome = Result InvariantError (Option ClosedTrade) × Portfolio

unfoldable pub sell_position : Fill → Option Position → Portfolio → Outcome
sell_position fill none f = (err sells_more_than_held, f)
sell_position fill (some p) f =
    if ltb p.shares fill.shares
    then (err sells_more_than_held, f)
    else if (sold fill p).shares == 0
    then (
      ok (some (trade_of (sold fill p) fill.ts_ms ExitKind.sell)),
      close (sold fill p) fill.ts_ms ExitKind.sell (sell_writes fill p f),
    )
    else (ok none, sell_writes fill p f)

abbrev pub fill_by_side : Side → Fill → String → ℕ → Portfolio → Outcome
fill_by_side Side.buy fill slug window_end f =
    if ltb_ℤ (f.cash_usd +ℤ pos cash_tolerance) (pos (cost_of fill))
    then (err costs_more_than_cash, f)
    else (
      ok none,
      buy fill (value_or (lookup fill.token_id f.positions) (opened fill slug window_end)) f,
    )
fill_by_side Side.sell fill slug window_end f =
    sell_position fill (lookup fill.token_id f.positions) f

unfoldable pub apply_fill : Fill → String → ℕ → Portfolio → Outcome
apply_fill fill slug window_end f = fill_by_side fill.side fill slug window_end f

abbrev pub payout_of : String → Position → ℕ
payout_of winner p = if str_eq p.outcome winner then p.shares * usd_per_share else 0

-- The position as `settle` leaves it before it closes it.
abbrev pub settled : String → Position → Position
settled winner p = record p {
  shares = 0;
  cost_basis_usd = 0;
  realized_pnl_usd = p.realized_pnl_usd +ℤ (pos (payout_of winner p) -ℤ pos p.cost_basis_usd);
}

unfoldable pub settle_writes : String → Position → Portfolio → Portfolio
settle_writes winner p f = record f {
  cash_usd = f.cash_usd +ℤ pos (payout_of winner p);
  realized_pnl_usd = f.realized_pnl_usd +ℤ (pos (payout_of winner p) -ℤ pos p.cost_basis_usd);
  positions = insert p.token_id (settled winner p) f.positions;
}

-- One round of the loop of `settle`, at a position of the snapshot `list(positions.values())`.
unfoldable pub settle_position : String → ℕ → Position → Portfolio → Portfolio
settle_position winner ts p f =
    close (settled winner p) ts ExitKind.settlement (settle_writes winner p f)

unfoldable pub settle_each : String → String → ℕ → List Position → Portfolio → Portfolio
settle_each condition winner ts [] f = f
settle_each condition winner ts (p ∷ ps) f = settle_each condition winner ts ps (
    if not (str_eq p.condition_id condition) || p.shares == 0
    then f
    else settle_position winner ts p f)

-- `settle`; the closed trades that it returns are those that it appends to `closed_trades`.
unfoldable pub settle : String → String → ℕ → Portfolio → Portfolio
settle condition winner ts f = settle_each condition winner ts (values f.positions) f

-- The first loop of `mark`: a bid of a held token replaces its mark.
unfoldable pub take_bids : Dict Position → List (String × Option ℕ) → Dict ℕ → Dict ℕ
take_bids held [] marks = marks
take_bids held ((token, none) ∷ bids) marks = take_bids held bids marks
take_bids held ((token, some bid) ∷ bids) marks =
    take_bids held bids (if contains token held then insert token bid marks else marks)

abbrev pub marked : Dict ℕ → String × Position → ℕ
marked marks (token, p) = p.shares * value_or (lookup token marks) 0

-- The second loop of `mark`: value at the bids, and the lesser of that and the cost.
unfoldable pub value : Dict ℕ → Dict Position → ℕ
value marks [] = 0
value marks (e ∷ ps) = marked marks e + value marks ps

unfoldable pub conservative : Dict ℕ → Dict Position → ℕ
conservative marks [] = 0
conservative marks (e ∷ ps) = min (marked marks e) e.1.cost_basis_usd + conservative marks ps

unfoldable pub mark : List (String × Option ℕ) → ℕ → Portfolio → Portfolio
mark bids now f =
    let marks = take_bids f.positions bids f.marks in
    let risk_equity = f.cash_usd +ℤ pos (conservative marks f.positions) in
    let new_day = not (day now == f.current_day) in
    record f {
      marks = marks;
      equity_usd = f.cash_usd +ℤ pos (value marks f.positions);
      risk_equity_usd = risk_equity;
      current_day = day now;
      start_of_day_equity_usd = if new_day then risk_equity else f.start_of_day_equity_usd;
      peak_equity_usd = max_ℤ f.peak_equity_usd risk_equity;
    }

-- `exposure_usd`
unfoldable pub exposure_usd : Dict Position → ℕ
exposure_usd [] = 0
exposure_usd (e ∷ ps) = e.1.cost_basis_usd + exposure_usd ps
