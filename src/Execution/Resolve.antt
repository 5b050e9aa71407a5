-- ===== src/Execution/Resolve.antt =====
-- `load_open_orders`, `resolve_unknown` and `mark_resolved_no_fill` of the execution engine.
use claude_route.Base.{
  ℕ, ◌+◌, String, Bool, false, ◌&&◌, ◌||◌, Option, none, some, List, [], ◌∷◌, filter, is_empty, ltb,
  leb, str_eq, if◌then◌else◌,
}
use claude_route.Base.Dict.{Dict, lookup, insert, contains, values}
use claude_route.Domain.Types.{OrderStatus, is_open, same_status}
use claude_route.Domain.Orders.{OrderRecord, ExecutionEvent}
use claude_route.Execution.{Config, Engine, truthy, update_order, save}
use claude_route.Execution.Events.{apply_events}

-- `ORDER BY created_ms`
insert_by_created : OrderRecord → List OrderRecord → List OrderRecord
insert_by_created r [] = r ∷ []
insert_by_created r (q ∷ qs) =
    let later = q ∷ insert_by_created r qs in
    if leb r.intent.created_ms q.intent.created_ms then r ∷ q ∷ qs else later

unfoldable pub sort_by_created : List OrderRecord → List OrderRecord
unfolding insert_by_created
sort_by_created [] = []
sort_by_created (r ∷ rs) = insert_by_created r (sort_by_created rs)

abbrev pub at_restart : ℕ → OrderRecord → OrderRecord
at_restart now r = record r {
  status = OrderStatus.unknown;
  updated_ms = now;
  last_error = some "open at restart; must be reconciled";
}

abbrev pub index_of : Option String → String → Dict String → Dict String
index_of none i d = d
index_of (some x) i d = insert x i d

-- `setdefault`
abbrev pub index_default : Option String → String → Dict String → Dict String
index_default none i d = d
index_default (some x) i d = if contains x d then d else insert x i d

-- The first loop of `load_open_orders`, over the open rows.
unfoldable pub reopen : ℕ → List OrderRecord → Engine → Engine
reopen now [] e = e
reopen now (r ∷ rs) e = reopen now rs (record e {
  store = update_order (at_restart now r) e.store;
  orders = insert r.intent.intent_id (at_restart now r) e.orders;
  by_exchange_id = index_of (truthy r.exchange_order_id) r.intent.intent_id e.by_exchange_id;
})

-- The second loop, over all rows.
unfoldable pub remember : List OrderRecord → Engine → Engine
remember [] e = e
remember (r ∷ rs) e = remember rs (record e {
  used_decisions = r.intent.decision_id ∷ e.used_decisions;
  by_exchange_id = index_default (truthy r.exchange_order_id) r.intent.intent_id e.by_exchange_id;
})

abbrev pub rows : Engine → List OrderRecord
rows e = sort_by_created (values e.store.orders)

unfoldable pub load_open_orders : ℕ → Engine → Engine
load_open_orders now e =
    let e' = reopen now (filter (λ r. is_open r.status) (rows e)) e in remember (rows e') e'

abbrev is_text : Option String → String → Bool
is_text none s = false
is_text (some t) s = str_eq t s

abbrev same_exchange_id : Option String → Option String → Bool
same_exchange_id none o = false
same_exchange_id (some x) o = is_text o x

-- The events of the venue's answer that belong to the order.
abbrev pub is_mine : OrderRecord → ExecutionEvent → Bool
is_mine r (ExecutionEvent.fill f) =
    is_text f.intent_id r.intent.intent_id
    || same_exchange_id (truthy r.exchange_order_id) f.exchange_order_id
is_mine r (ExecutionEvent.update u) =
    is_text u.intent_id r.intent.intent_id
    || same_exchange_id (truthy r.exchange_order_id) (some u.exchange_order_id)

-- An exception of the query counts as no events.
abbrev pub found : OrderRecord → Option (List ExecutionEvent) → List ExecutionEvent
found r none = []
found r (some events) = filter (is_mine r) events

-- `find token since` is `provider.find_orders_since`; `none` is an exception. The ids that are
-- still unresolved past the timeout come back beside the engine.
unfoldable pub resolve_each :
    (String → ℕ → Option (List ExecutionEvent))
    → Config
    → ℕ
    → List OrderRecord
    → Engine
    → List String × Engine
resolve_each find c now [] e = ([], e)
resolve_each find c now (r ∷ rs) e =
    let mine = found r (find r.intent.token_id r.intent.created_ms) in
    let (stuck, e') =
      resolve_each find c now rs (if is_empty mine then e else apply_events mine e) in
    (
      if is_empty mine && ltb (r.updated_ms + c.unknown_state_timeout_ms) now
          then r.intent.intent_id ∷ stuck
          else stuck,
      e',
    )

unfoldable pub resolve_unknown :
    (String → ℕ → Option (List ExecutionEvent)) → Config → ℕ → Engine → List String × Engine
resolve_unknown find c now e =
    resolve_each find c now
      (filter (λ r. same_status r.status OrderStatus.unknown) (values e.orders)) e

abbrev pub cancelled : ℕ → String → OrderRecord → OrderRecord
cancelled now reason r = record r {
  status = OrderStatus.cancelled;
  updated_ms = now;
  last_error = some reason;
}

unfoldable pub mark_order : ℕ → String → Option OrderRecord → Engine → Option Engine
mark_order now reason none e = none
mark_order now reason (some r) e = some (save (cancelled now reason r) e)

-- `none` is the `KeyError` of an unknown id
unfoldable pub mark_resolved_no_fill : ℕ → String → String → Engine → Option Engine
mark_resolved_no_fill now id reason e = mark_order now reason (lookup id e.orders) e
