-- ===== src/Execution/Submit.antt =====
-- `build_intent` and `execute` of the execution engine. The new intent's id is an argument, and so
-- is what came of the submission; nothing else runs between the two halves of `execute`.
use claude_route.Base.{
  ℕ, ◌+◌, String, Bool, false, not, ◌||◌, Option, none, some, [], ◌∷◌, any, length, ltb, leb,
  str_eq, Result, ok, err, ◌>>=◌, ◌>>◌, raise_if, if◌then◌else◌,
}
use claude_route.Base.Text.{◌<>◌}
use claude_route.Base.Dict.{Dict, insert, contains}
use claude_route.Domain.Types.{Side, OrderStatus}
use claude_route.Domain.Orders.{OrderIntent, OrderRecord, OrderAck, ValueError, make_intent}
use claude_route.Domain.Market.{MarketDefinition, outcome_of}
use claude_route.Domain.Decisions.{RiskDecision}
use claude_route.Risk.Ticks.{floor_to_tick, ceil_to_tick}
use claude_route.Execution.{
  Config, Engine, Store, truthy, open_orders, unknown_count, update_order, save,
}

pub data ExecutionError : Type 0 where
  not_allowed expired already_executed wrong_token max_in_flight unknown_pending duplicate_row :
      ExecutionError
  value_error : ValueError → ExecutionError

abbrev pub max_decision_age_ms : ℕ
max_decision_age_ms = 3_000

-- `decision.decision_id in self._used_decisions`
abbrev pub is_used : String → Engine → Bool
is_used d e = any (str_eq d) e.used_decisions

abbrev pub lift_value : {A : Type 0} → Result ValueError A → Result ExecutionError A
lift_value (ok a) = ok a
lift_value (err e) = err (value_error e)

abbrev pub same_outcome : Option String → String → Bool
same_outcome none outcome = false
same_outcome (some o) outcome = str_eq o outcome

-- The intent before its constructor checks it: a BUY never above the approved price, a SELL never
-- below it.
abbrev pub draft :
    Side → Config → ℕ → String → RiskDecision → MarketDefinition → String → OrderIntent
draft Side.buy c now id d m outcome = record {
  intent_id = id;
  decision_id = d.decision_id;
  condition_id = m.condition_id;
  market_slug = m.slug;
  token_id = d.token_id;
  outcome = outcome;
  side = Side.buy;
  order_type = c.entry_order_type;
  limit_price = floor_to_tick d.limit_price m.tick_size;
  buy_amount_usd = some d.max_size_usd;
  sell_shares = none;
  purpose = d.purpose;
  created_ms = now;
}
draft Side.sell c now id d m outcome = record {
  intent_id = id;
  decision_id = d.decision_id;
  condition_id = m.condition_id;
  market_slug = m.slug;
  token_id = d.token_id;
  outcome = outcome;
  side = Side.sell;
  order_type = c.exit_order_type;
  limit_price = ceil_to_tick d.limit_price m.tick_size;
  buy_amount_usd = none;
  sell_shares = some d.max_shares;
  purpose = d.purpose;
  created_ms = now;
}

-- `now - decision.timestamp_ms > MAX_DECISION_AGE_MS` is written without the difference.
unfoldable pub build_intent :
    Config
    → ℕ
    → String
    → RiskDecision
    → MarketDefinition
    → String
    → Engine
    → Result ExecutionError OrderIntent
build_intent c now id d m outcome e = do
  raise_if (not d.allowed) not_allowed
  raise_if (ltb (d.timestamp_ms + max_decision_age_ms) now) expired
  raise_if (is_used d.decision_id e) already_executed
  raise_if (not (same_outcome (outcome_of m d.token_id) outcome)) wrong_token
  lift_value (make_intent (draft d.side c now id d m outcome))

abbrev pub record_of : OrderIntent → OrderStatus → OrderRecord
record_of i status = record {
  intent = i;
  status = status;
  exchange_order_id = none;
  filled_shares = 0;
  filled_notional_usd = 0;
  fees_usd = 0;
  updated_ms = i.created_ms;
  last_error = none;
}

abbrev decision_in : String → Dict OrderRecord → Bool
decision_in d [] = false
decision_in d ((k, r) ∷ rows) = str_eq r.intent.decision_id d || decision_in d rows

-- `StateStore.insert_order_intent`: both `intent_id` and `decision_id` are unique
unfoldable pub insert_order_intent : OrderIntent → Store → Result ExecutionError Store
insert_order_intent i s =
    if contains i.intent_id s.orders || decision_in i.decision_id s.orders
    then err duplicate_row
    else ok (record s { orders = insert i.intent_id (record_of i OrderStatus.intent) s.orders })

-- The writes before the submission, and the call of the provider.
abbrev pub submit : OrderIntent → Store → Engine → Engine
submit i s e = record e {
  used_decisions = i.decision_id ∷ e.used_decisions;
  orders = insert i.intent_id (record_of i OrderStatus.submitting) e.orders;
  store = update_order (record_of i OrderStatus.submitting) s;
  submitted = i ∷ e.submitted;
}

-- `execute` up to the `await`.
unfoldable pub begin :
    Config
    → ℕ
    → String
    → RiskDecision
    → MarketDefinition
    → String
    → Engine
    → Result ExecutionError (OrderIntent × Engine)
begin c now id d m outcome e = do
  raise_if (leb c.max_in_flight_orders (length (open_orders e))) max_in_flight
  raise_if (ltb 0 (unknown_count e)) unknown_pending
  intent ← build_intent c now id d m outcome e
  store ← insert_order_intent intent e.store
  ok (intent, submit intent store e)

-- What came of the submission: an acknowledgement, a timeout or transport error, or another
-- exception, with the clock as it was then and the exception's name.
pub data Submission : Type 0 where
  acked : OrderAck → Submission
  unreachable : ℕ → String → Submission
  failed : ℕ → String → Submission

-- The text of a value that may be `None`.
abbrev pub shown : Option String → String
shown none = "None"
shown (some s) = s

abbrev pub outcome_record : Submission → OrderIntent → OrderRecord
outcome_record (unreachable now name) i = record (record_of i OrderStatus.unknown) {
  updated_ms = now;
  last_error = some ("submission outcome unknown: " <> name);
}
outcome_record (failed now name) i = record (record_of i OrderStatus.unknown) {
  updated_ms = now;
  last_error = some ("submission error: " <> name);
}
outcome_record (acked a) i =
    if a.ambiguous
    then record (record_of i OrderStatus.unknown) {
      updated_ms = a.received_ms;
      exchange_order_id = a.exchange_order_id;
      last_error = some "ambiguous ack";
    }
    else if not a.accepted
    then record (record_of i OrderStatus.rejected) {
      updated_ms = a.received_ms;
      last_error = some (shown a.error_code <> ": " <> shown a.error_message);
    }
    else record (record_of i a.status) {
      exchange_order_id = a.exchange_order_id;
      updated_ms = a.received_ms;
    }

abbrev pub index_exchange_id : Option String → String → Engine → Engine
index_exchange_id none i e = e
index_exchange_id (some x) i e = record e { by_exchange_id = insert x i e.by_exchange_id }

-- `execute` behind the `await`.
unfoldable pub finish : Submission → OrderIntent → Engine → Engine
finish s i e =
    let r = outcome_record s i in
    save r (index_exchange_id (truthy r.exchange_order_id) i.intent_id e)

-- The whole of `execute`. Where it raises, nothing has been written.
unfoldable pub execute :
    Config
    → ℕ
    → String
    → RiskDecision
    → MarketDefinition
    → String
    → Submission
    → Engine
    → Result ExecutionError Engine
execute c now id d m outcome s e = do
  begun ← begin c now id d m outcome e
  ok (finish s begun.0 begun.1)
