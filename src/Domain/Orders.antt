-- ===== src/Domain/Orders.antt =====
-- The order objects of src/polymarket_bot/domain/orders.py, and what their constructors refuse.
-- A Decimal that is a price counts units of 0.0001, the least tick; shares count units of 0.000001;
-- USD amounts count units of 1e-10, `ACCOUNTING_Q`. So price * shares is an exact product.
use claude_route.Base.{
  ℕ, String, Bool, true, false, not, ◌&&◌, Option, none, some, ltb, ◌==◌, is_some, Result, ok, err,
  if◌then◌else◌,
}
use claude_route.Domain.Types.{Side, OrderType, OrderStatus, OrderPurpose}

abbrev pub one_price : ℕ
one_price = 10_000

-- 0.01 shares
abbrev pub share_lot : ℕ
share_lot = 10_000

-- 0.01 USD
abbrev pub usd_cent : ℕ
usd_cent = 100_000_000

pub record OrderIntent : Type 0 where
  pub intent_id : String
  pub decision_id : String
  pub condition_id : String
  pub market_slug : String
  pub token_id : String
  pub outcome : String
  pub side : Side
  pub order_type : OrderType
  pub limit_price : ℕ
  pub buy_amount_usd : Option ℕ
  pub sell_shares : Option ℕ
  pub purpose : OrderPurpose
  pub created_ms : ℕ

-- What the `ValueError`s of the constructors say.
pub data ValueError : Type 0 where
  limit_price_range buy_amount_required buy_sets_shares sell_shares_required sell_sets_amount
        entry_sells fill_shares_zero fill_price_range :
      ValueError

abbrev positive : Option ℕ → Bool
positive none = false
positive (some n) = ltb 0 n

abbrev is_entry : OrderPurpose → Bool
is_entry OrderPurpose.entry = true
is_entry OrderPurpose.exit = false

abbrev check_amounts : Side → OrderIntent → Option ValueError
check_amounts Side.buy i =
    if not (positive i.buy_amount_usd)
    then some buy_amount_required
    else if is_some i.sell_shares
    then some buy_sets_shares
    else none
check_amounts Side.sell i =
    if not (positive i.sell_shares)
    then some sell_shares_required
    else if is_some i.buy_amount_usd
    then some sell_sets_amount
    else if is_entry i.purpose
    then some entry_sells
    else none

abbrev or_raise : {A : Type 0} → Option ValueError → A → Result ValueError A
or_raise none a = ok a
or_raise (some e) a = err e

-- `OrderIntent.__post_init__`
unfoldable pub make_intent : OrderIntent → Result ValueError OrderIntent
make_intent i =
    if not (ltb 0 i.limit_price && ltb i.limit_price one_price)
    then err limit_price_range
    else or_raise (check_amounts i.side i) i

pub record OrderAck : Type 0 where
  pub intent_id : String
  pub accepted : Bool
  pub status : OrderStatus
  pub exchange_order_id : Option String
  pub received_ms : ℕ
  pub error_code : Option String
  pub error_message : Option String
  pub ambiguous : Bool

pub record Fill : Type 0 where
  pub fill_id : String
  pub intent_id : Option String
  pub exchange_order_id : Option String
  pub condition_id : String
  pub token_id : String
  pub outcome : String
  pub side : Side
  pub price : ℕ
  pub shares : ℕ
  pub fee_usd : ℕ
  pub ts_ms : ℕ

-- `Fill.__post_init__`
unfoldable pub make_fill : Fill → Result ValueError Fill
make_fill f =
    if f.shares == 0
    then err fill_shares_zero
    else if not (ltb 0 f.price && ltb f.price one_price)
    then err fill_price_range
    else ok f

pub record OrderRecord : Type 0 where
  pub intent : OrderIntent
  pub status : OrderStatus
  pub exchange_order_id : Option String
  pub filled_shares : ℕ
  pub filled_notional_usd : ℕ
  pub fees_usd : ℕ
  pub updated_ms : ℕ
  pub last_error : Option String

pub record OrderUpdate : Type 0 where
  pub exchange_order_id : String
  pub intent_id : Option String
  pub status : OrderStatus
  pub cumulative_filled_shares : ℕ
  pub ts_ms : ℕ
  pub detail : String

-- `ExecutionEvent`
pub data ExecutionEvent : Type 0 where
  fill : Fill → ExecutionEvent
  update : OrderUpdate → ExecutionEvent
