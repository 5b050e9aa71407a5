-- ===== src/Execution.antt =====
-- `ExecutionEngine` of src/polymarket_bot/execution/engine.py, with the tables `orders` and `fills`
-- of the state database (storage/sqlite_store.py). A method takes the engine and returns the engine
-- as it stands afterwards, with its result or what it raises. `submitted` and `reported` are the
-- calls of the provider and of `on_fill`, newest first; the audit log is left out.
pub mod Submit
pub mod Begun
pub mod Events
pub mod Resolve
pub mod Persisted
pub mod Accounting
pub mod Once
pub mod Trace
pub mod Limits
pub mod Replay
mod Tests
use claude_route.Base.{
  ℕ, ◌+◌, ◌-◌, String, Bool, true, false, not, ◌&&◌, ◌||◌, Option, none, some, List, [], ◌∷◌, any,
  filter, count, length, is_some, ltb, leb, str_eq, Result, ok, err, if◌then◌else◌,
}
use claude_route.Base.Dict.{Dict, lookup, insert, contains, values}
use claude_route.Domain.Types.{
  Side, OrderType, OrderStatus, OrderPurpose, same_side, same_status, is_open,
}
use claude_route.Domain.Orders.{Fill, OrderIntent, OrderRecord, ValueError}

pub record Config : Type 0 where
  pub entry_order_type : OrderType
  pub exit_order_type : OrderType
  pub max_in_flight_orders : ℕ
  pub unknown_state_timeout_ms : ℕ

-- What `_violation` is called for.
pub data Violation : Type 0 where
  fill_not_ours side_or_token_mismatch beyond_limit oversold overspent update_not_ours
        terminal_mismatch :
      Violation

-- The tables: `orders` by its primary key, with its column `decision_id`, and `fills`.
pub record Store : Type 0 where
  pub orders : Dict OrderRecord
  pub fills : Dict Fill

pub record Engine : Type 0 where
  pub orders : Dict OrderRecord
  pub by_exchange_id : Dict String
  pub used_decisions : List String
  pub violations : List Violation
  pub store : Store
  pub submitted : List OrderIntent
  pub reported : List (Fill × OrderRecord)

abbrev pub start : Store → Engine
start s = record {
  orders = [];
  by_exchange_id = [];
  used_decisions = [];
  violations = [];
  store = s;
  submitted = [];
  reported = [];
}

-- A text that Python takes for true.
abbrev pub truthy : Option String → Option String
truthy none = none
truthy (some s) = if str_eq s "" then none else some s

unfoldable pub open_orders : Engine → List OrderRecord
open_orders e = filter (λ r. is_open r.status) (values e.orders)

unfoldable pub unknown_count : Engine → ℕ
unknown_count e = count (λ r. same_status r.status OrderStatus.unknown) (values e.orders)

abbrev pub left_to_buy : Side → Option ℕ → ℕ → ℕ
left_to_buy Side.buy (some amount) filled = amount - filled
left_to_buy _ _ filled = 0

abbrev pub left_to_sell : Side → Option ℕ → ℕ → ℕ
left_to_sell Side.sell (some shares) filled = shares - filled
left_to_sell _ _ filled = 0

abbrev pub total : (OrderRecord → ℕ) → List OrderRecord → ℕ
total f [] = 0
total f (r ∷ rs) = f r + total f rs

-- `pending_buy_usd`: `max(ZERO, a - b)` is the truncated difference
unfoldable pub pending_buy_usd : Engine → ℕ
unfolding open_orders
pending_buy_usd e =
    total (λ r. left_to_buy r.intent.side r.intent.buy_amount_usd r.filled_notional_usd)
      (open_orders e)

-- `pending_sell_shares().get(token, ZERO)`
unfoldable pub pending_sell_shares : String → Engine → ℕ
unfolding open_orders
pending_sell_shares token e =
    total (λ r. left_to_sell r.intent.side r.intent.sell_shares r.filled_shares)
      (filter (λ r. str_eq r.intent.token_id token) (open_orders e))

-- `StateStore.update_order`: the row keeps its intent's columns, which are those of `r`.
unfoldable pub update_order : OrderRecord → Store → Store
update_order r s = record s {
  orders =
      if contains r.intent.intent_id s.orders
      then insert r.intent.intent_id r s.orders
      else s.orders;
}

-- `StateStore.insert_fill`: whether the fill is new
unfoldable pub insert_fill : Fill → Store → Bool × Store
insert_fill f s =
    if contains f.fill_id s.fills
    then (false, s)
    else (true, record s { fills = insert f.fill_id f s.fills })

-- `_save`
unfoldable pub save : OrderRecord → Engine → Engine
unfolding update_order
save r e = record e {
  orders = insert r.intent.intent_id r e.orders;
  store = update_order r e.store;
}

abbrev pub violate : Violation → Engine → Engine
violate v e = record e { violations = v ∷ e.violations }

abbrev pub violate_if : Bool → Violation → Engine → Engine
violate_if b v e = if b then violate v e else e

-- `_lookup`
abbrev pub by_intent : Option String → Engine → Option OrderRecord
by_intent none e = none
by_intent (some i) e = lookup i e.orders

abbrev pub by_exchange : Option String → Engine → Option OrderRecord
by_exchange none e = none
by_exchange (some x) e = by_intent (lookup x e.by_exchange_id) e

abbrev pub or_else : Option OrderRecord → Option OrderRecord → Option OrderRecord
or_else none o = o
or_else (some r) o = some r

unfoldable pub find_order : Option String → Option String → Engine → Option OrderRecord
find_order intent_id exchange_id e =
    or_else (by_intent (truthy intent_id) e) (by_exchange (truthy exchange_id) e)
