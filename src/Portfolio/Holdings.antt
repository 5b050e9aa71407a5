-- ===== src/Portfolio/Holdings.antt =====
-- Proofs on the shares that `apply_fill` of the portfolio moves.
use claude_route.Base.{
  ℕ, ◌+◌, ◌-◌, ◌≡◌, ◌⊎◌, inl, inr, String, true, false, Option, none, some, arith, ltb, str_eq,
  eq_iff, ok, err, Option-cases, if◌then◌else◌,
}
use claude_route.Base.Int.{pos, ◌+ℤ◌, ltb_ℤ}
use claude_route.Base.Dict.{lookup, insert, lookup-insert, lookup-erase}
use claude_route.Domain.Types.{Side}
use claude_route.Domain.Orders.{Fill}
use claude_route.Portfolio.{
  Portfolio, Position, opened, cost_of, bought, sold, buy, sell_writes, sell_position, close,
  cash_tolerance, apply_fill, costs_more_than_cash, sells_more_than_held,
}
use claude_route.Portfolio.Dicts.{Keyed, lookup-Keyed}

abbrev shares_in : Option Position → ℕ
shares_in none = 0
shares_in (some p) = p.shares

-- The shares of a token that the portfolio holds.
abbrev pub held : String → Portfolio → ℕ
held token f = shares_in (lookup token f.positions)

-- A BUY that costs more than the cash and the tolerance is refused, and changes nothing. Any other
-- adds its shares to its token, and leaves the shares of every other token as they were.
pub buy_holdings :
    (fill : Fill) (slug : String) (w : ℕ) (token : String) (f : Portfolio)
    → fill.side ≡ Side.buy
    → let (r, f') = apply_fill fill slug w f in
      let dear = ltb_ℤ (f.cash_usd +ℤ pos cash_tolerance) (pos (cost_of fill)) in
      ((dear ≡ true) × (r ≡ err costs_more_than_cash) × (f' ≡ f))
      ⊎ ((dear ≡ false)
          × (r ≡ ok none)
          × (held token f'
              ≡ (if str_eq fill.token_id token then held token f + fill.shares else held token f)))
unfolding apply_fill buy
buy_holdings fill slug w token f s = elim (Option-cases (lookup fill.token_id f.positions)) [
  | inl e ↦ ground (
    arith,
    s,
    e,
    eq_iff fill.token_id token,
    lookup-insert fill.token_id token (bought fill (opened fill slug w)) f.positions,
  )
  | inr (p, e) ↦ ground (
    arith,
    s,
    e,
    eq_iff fill.token_id token,
    lookup-insert fill.token_id token (bought fill p) f.positions,
  )
]

-- In a portfolio that keeps each position under its own token, a SELL of more shares than are held
-- is refused, and changes nothing. Any other takes its shares from its token, and leaves the shares
-- of every other token as they were.
pub sell_holdings :
    (fill : Fill) (slug : String) (w : ℕ) (token : String) (f : Portfolio)
    → fill.side ≡ Side.sell
    → Keyed f.positions
    → let (r, f') = apply_fill fill slug w f in
      let short = ltb (held fill.token_id f) fill.shares in
      ((short ≡ true) × (r ≡ err sells_more_than_held) × (f' ≡ f))
      ⊎ ((short ≡ false)
          × (held token f'
              ≡ (if str_eq fill.token_id token then held token f - fill.shares else held token f)))
unfolding apply_fill sell_position sell_writes close
sell_holdings fill slug w token f s k = elim (Option-cases (lookup fill.token_id f.positions)) [
  | inl e ↦ ground (arith, s, e, eq_iff fill.token_id token)
  | inr (p, e) ↦ ground (
    arith,
    s,
    e,
    eq_iff fill.token_id token,
    lookup-Keyed fill.token_id p f.positions k e,
    lookup-insert fill.token_id token (sold fill p) f.positions,
    lookup-erase fill.token_id token (insert fill.token_id (sold fill p) f.positions),
  )
]
