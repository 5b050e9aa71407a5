-- ===== src/Execution/Tests.antt =====
-- The execution engine on one decision, its fills and a lost submission.
use claude_route.Base.{
  ◌+◌, ◌≤◌, ◌≡◌, ◌≢◌, refl, String, true, false, none, some, List, [], ◌∷◌, is_some, ok, Result,
  arith, eq_iff,
}
use claude_route.Base.Dict.{lookup, insert}
use claude_route.Domain.Types.{Side, OrderType, OrderPurpose, OrderStatus}
use claude_route.Domain.Orders.{Fill, OrderIntent, ExecutionEvent, make_intent}
use claude_route.Domain.Market.{MarketDefinition, outcome_of}
use claude_route.Domain.Decisions.{RiskDecision}
use claude_route.Risk.Ticks.{floor_to_tick}
use claude_route.Execution.{
  Config, Engine, start, save, update_order, find_order, open_orders, unknown_count,
}
use claude_route.Execution.Submit.{
  unreachable, is_used, build_intent, insert_order_intent, begin, finish, execute, draft, record_of,
  ExecutionError,
}
use claude_route.Execution.Events.{apply_fill, apply_events}
use claude_route.Execution.Accounting.{IsAccounted, apply_events-IsAccounted}
use claude_route.Execution.Once.{NoRepeat}
use claude_route.Execution.Trace.{Call, execute_call, events_call, kept, run, submitted_once}
use claude_route.Execution.Limits.{Within, build_intent-Within, ambiguity_blocks}
use claude_route.Execution.Replay.{fill_applied_once}

abbrev config : Config
config = record {
  entry_order_type = OrderType.fak;
  exit_order_type = OrderType.fak;
  max_in_flight_orders = 2;
  unknown_state_timeout_ms = 30_000;
}

abbrev market : MarketDefinition
market = record {
  condition_id = "c";
  slug = "m";
  first = record { token_id = "t"; outcome = "Up" };
  second = record { token_id = "u"; outcome = "Down" };
  window_start_ms = 0;
  window_end_ms = 900_000;
  tick_size = 100;
  min_order_size = 5_000_000;
  fee_schedule = record { rate = 700; exponent = 1 };
  rule_id = "r";
  accepting_orders = true;
}

abbrev decision : String → RiskDecision
decision id = record {
  decision_id = id;
  allowed = true;
  checks = [];
  purpose = OrderPurpose.entry;
  side = Side.buy;
  token_id = "t";
  condition_id = "c";
  max_size_usd = 100_000_000_000;
  max_shares = 20_000_000;
  limit_price = 5_050;
  timestamp_ms = 1_000;
}

abbrev fill : Fill
fill = record {
  fill_id = "f";
  intent_id = some "i1";
  exchange_order_id = none;
  condition_id = "c";
  token_id = "t";
  outcome = "Up";
  side = Side.buy;
  price = 5_000;
  shares = 2_000_000;
  fee_usd = 100;
  ts_ms = 1_200;
}

abbrev empty : Engine
empty = start (record { orders = []; fills = [] })

abbrev execute_first : Result ExecutionError Engine
execute_first =
    execute config 1_100 "i1" (decision "d1") market "Up" (unreachable 1_150 "Timeout") empty

abbrev uncertain : Engine
uncertain = kept empty execute_first

executes : execute_first ≡ ok uncertain
unfolding execute begin build_intent make_intent outcome_of insert_order_intent finish save
    open_orders unknown_count lookup insert update_order floor_to_tick
executes = refl

abbrev intent : OrderIntent
intent = draft Side.buy config 1_100 "i1" (decision "d1") market "Up"

builds : build_intent config 1_100 "i1" (decision "d1") market "Up" empty ≡ ok intent
unfolding build_intent make_intent outcome_of floor_to_tick
builds = refl

build_intent-Within_example :
    ((decision "d1").allowed ≡ true)
    × (1_100 ≤ (decision "d1").timestamp_ms + 3000)
    × (is_used (decision "d1").decision_id empty ≡ false)
    × Within (decision "d1").side intent (decision "d1")
build_intent-Within_example =
    build_intent-Within config 1_100 "i1" (decision "d1") market "Up" empty intent (omega arith)
      builds

ambiguity_blocks_example :
    execute config 1_300 "i2" (decision "d2") market "Up" (unreachable 1_350 "Timeout") uncertain
    ≢ ok uncertain
ambiguity_blocks_example =
    ambiguity_blocks config 1_100 "i1" (decision "d1") market "Up" (unreachable 1_150 "Timeout")
      empty uncertain tt executes 1_300 "i2" (decision "d2") market "Up"
      (unreachable 1_350 "Timeout") uncertain

abbrev calls : List Call
calls =
    execute_call config 1_100 "i1" (decision "d1") market "Up" (unreachable 1_150 "Timeout")
    ∷ events_call (ExecutionEvent.fill fill ∷ [])
    ∷ execute_call config 1_300 "i2" (decision "d1") market "Up" (unreachable 1_350 "Timeout")
    ∷ []

submitted_once_example : NoRepeat (run (start (record { orders = []; fills = [] })) calls).submitted
submitted_once_example = submitted_once (record { orders = []; fills = [] }) calls

found : is_some (find_order fill.intent_id fill.exchange_order_id uncertain) ≡ true
unfolding find_order execute begin build_intent make_intent outcome_of insert_order_intent finish
    save open_orders unknown_count lookup insert update_order floor_to_tick
found = refl

fill_applied_once_example : apply_fill fill (apply_fill fill uncertain) ≡ apply_fill fill uncertain
fill_applied_once_example = fill_applied_once fill uncertain found

abbrev tracked : Engine
tracked =
    save (record_of intent OrderStatus.submitting)
      (start (record { orders = ("i1", record_of intent OrderStatus.intent) ∷ []; fills = [] }))

tracked-IsAccounted : IsAccounted tracked
unfolding save update_order lookup insert
tracked-IsAccounted = record {
  persisted = record {
    keyed = λ id r h. ground (arith, eq_iff "i1" id);
    written = λ id r h. ground (arith, eq_iff "i1" id);
  };
  agrees = λ id r h. ground (arith, eq_iff "i1" id);
}

apply_events-IsAccounted_example :
    IsAccounted (apply_events (ExecutionEvent.fill fill ∷ ExecutionEvent.fill fill ∷ []) tracked)
apply_events-IsAccounted_example =
    apply_events-IsAccounted (ExecutionEvent.fill fill ∷ ExecutionEvent.fill fill ∷ []) tracked
      tracked-IsAccounted
