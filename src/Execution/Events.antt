-- ===== src/Execution/Events.antt =====
-- `_apply_fill`, `_apply_update` and `apply_events` of the execution engine.
use claude_route.Base.{
  ℕ, ◌+◌, ◌*◌, String, Bool, false, not, ◌&&◌, ◌||◌, Option, none, some, List, [], ◌∷◌, ltb, leb,
  ◌==◌, str_eq, if◌then◌else◌,
}
use claude_route.Domain.Types.{Side, OrderStatus, same_side, is_terminal}
use claude_route.Domain.Orders.{Fill, OrderRecord, OrderUpdate, ExecutionEvent, usd_cent, share_lot}
use claude_route.Execution.{
  Engine, fill_not_ours, side_or_token_mismatch, beyond_limit, oversold, overspent, update_not_ours,
  terminal_mismatch, insert_fill, save, violate, violate_if, find_order,
}

-- 0.01 USD
abbrev pub notional_tolerance : ℕ
notional_tolerance = usd_cent

abbrev pub is_beyond_limit : Side → ℕ → ℕ → Bool
is_beyond_limit Side.buy price limit = ltb limit price
is_beyond_limit Side.sell price limit = ltb price limit

-- `shares` and `notional` are the totals with the new fill.
abbrev pub is_oversold : Side → Option ℕ → ℕ → Bool
is_oversold Side.sell (some n) shares = ltb n shares
is_oversold _ _ shares = false

abbrev pub is_overspent : Side → Option ℕ → ℕ → Bool
is_overspent Side.buy (some n) notional = ltb (n + notional_tolerance) notional
is_overspent _ _ notional = false

abbrev pub status_after_fill : OrderStatus → OrderStatus
status_after_fill OrderStatus.unknown = OrderStatus.partially_filled
status_after_fill OrderStatus.live = OrderStatus.partially_filled
status_after_fill OrderStatus.submitting = OrderStatus.partially_filled
status_after_fill s = s

abbrev pub filled : Fill → OrderRecord → OrderRecord
filled f r = record r {
  filled_shares = r.filled_shares + f.shares;
  filled_notional_usd = r.filled_notional_usd + f.price * f.shares;
  fees_usd = r.fees_usd + f.fee_usd;
  updated_ms = f.ts_ms;
  status = status_after_fill r.status;
}

-- The three checks that only report.
unfoldable pub check_fill : Fill → OrderRecord → Engine → Engine
check_fill f r e =
    violate_if (is_overspent r.intent.side r.intent.buy_amount_usd (filled f r).filled_notional_usd)
      overspent
      (violate_if (is_oversold r.intent.side r.intent.sell_shares (filled f r).filled_shares)
        oversold
        (violate_if (is_beyond_limit r.intent.side f.price r.intent.limit_price) beyond_limit e))

-- `_apply_fill` from the insertion of the row on.
unfoldable pub book_fill : Fill → OrderRecord → Engine → Engine
book_fill f r e =
    if not (same_side f.side r.intent.side) || not (str_eq f.token_id r.intent.token_id)
    then violate side_or_token_mismatch e
    else let saved = save (filled f r) (check_fill f r e) in
      record saved { reported = (f, filled f r) ∷ saved.reported }

unfoldable pub fill_order : Fill → Option OrderRecord → Engine → Engine
fill_order f none e = violate fill_not_ours e
fill_order f (some r) e =
    let (new, store) = insert_fill f e.store in
    if new then book_fill f r (record e { store = store }) else e

unfoldable pub apply_fill : Fill → Engine → Engine
apply_fill f e = fill_order f (find_order f.intent_id f.exchange_order_id e) e

-- `_fully_filled`
abbrev fully_bought : Option ℕ → OrderRecord → Bool
fully_bought none r = false
fully_bought (some n) r = ltb n (r.filled_notional_usd + r.intent.limit_price * share_lot)

abbrev pub fully_filled : Side → Option ℕ → OrderRecord → Bool
fully_filled Side.sell (some n) r = leb n r.filled_shares
fully_filled _ _ r = fully_bought r.intent.buy_amount_usd r

abbrev pub status_after_update : OrderStatus → OrderRecord → OrderStatus
status_after_update OrderStatus.cancelled r =
    if ltb 0 r.filled_shares && fully_filled r.intent.side r.intent.sell_shares r
    then OrderStatus.filled
    else OrderStatus.cancelled
status_after_update s r = s

abbrev pub known_or : Option String → String → Option String
known_or (some x) y = if str_eq x "" then some y else some x
known_or none y = some y

abbrev pub updated : OrderUpdate → OrderRecord → OrderRecord
updated u r = record r {
  status = status_after_update u.status r;
  updated_ms = u.ts_ms;
  exchange_order_id = known_or r.exchange_order_id u.exchange_order_id;
}

-- Reports an update to a terminal state that does not agree with the fills applied.
unfoldable pub noted : OrderUpdate → OrderRecord → Engine → Engine
noted u r e =
    violate_if (is_terminal u.status && not (u.cumulative_filled_shares == r.filled_shares))
      terminal_mismatch e

unfoldable pub update_status : OrderUpdate → Option OrderRecord → Engine → Engine
update_status u none e = violate update_not_ours e
update_status u (some r) e = if is_terminal r.status then e else save (updated u r) (noted u r e)

unfoldable pub apply_update : OrderUpdate → Engine → Engine
apply_update u e = update_status u (find_order u.intent_id (some u.exchange_order_id) e) e

unfoldable pub apply_event : ExecutionEvent → Engine → Engine
apply_event (ExecutionEvent.fill f) e = apply_fill f e
apply_event (ExecutionEvent.update u) e = apply_update u e

unfoldable pub apply_events : List ExecutionEvent → Engine → Engine
apply_events [] e = e
apply_events (x ∷ xs) e = apply_events xs (apply_event x e)
