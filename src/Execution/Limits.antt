-- ===== src/Execution/Limits.antt =====
-- Proofs on what `build_intent` asks for, and on `execute` while an order is in an unknown state.
use claude_route.Base.{
  ℕ, ◌+◌, ◌≤◌, ◌<◌, ◌≡◌, ◌≢◌, refl, String, Bool, true, false, none, some, [], ◌∷◌, arith, ltb,
  count, ok,
}
use claude_route.Base.Dict.{Dict, lookup, insert, values, lookup-insert_self}
use claude_route.Domain.Types.{Side, OrderStatus, same_status}
use claude_route.Domain.Orders.{OrderIntent, OrderRecord}
use claude_route.Domain.Market.{MarketDefinition}
use claude_route.Domain.Decisions.{RiskDecision}
use claude_route.Risk.Ticks.{floor_to_tick_bounds, ceil_to_tick_bounds}
use claude_route.Execution.{Config, Engine, unknown_count, save, truthy}
use claude_route.Execution.Submit.{
  Submission, unreachable, failed, acked, is_used, draft, build_intent, outcome_record,
  index_exchange_id, finish, execute,
}
use claude_route.Execution.Begun.{build_intent-Approved, execute-Executed}

-- The intent asks for no more than the decision allows: a BUY spends its amount and pays at most
-- its price, a SELL sells its shares and takes at least its price.
abbrev pub Within : Side → OrderIntent → RiskDecision → Type 0
Within Side.buy i d =
    (i.limit_price ≤ d.limit_price)
    × (i.buy_amount_usd ≡ some d.max_size_usd)
    × (i.sell_shares ≡ none)
Within Side.sell i d =
    (d.limit_price ≤ i.limit_price)
    × (i.sell_shares ≡ some d.max_shares)
    × (i.buy_amount_usd ≡ none)

draft-Within :
    (s : Side) (c : Config) (now : ℕ) (id : String) (d : RiskDecision) (m : MarketDefinition)
    (outcome : String)
    → 0 < m.tick_size
    → Within s (draft s c now id d m outcome) d
draft-Within Side.buy c now id d m outcome h =
    ((floor_to_tick_bounds d.limit_price m.tick_size h).0, refl, refl)
draft-Within Side.sell c now id d m outcome h =
    ((ceil_to_tick_bounds d.limit_price m.tick_size h).0, refl, refl)

-- Whenever an intent is built, in a market whose tick is positive, the decision was allowed, at most
-- 3 seconds old and unused, and the intent asks for no more than it allows, on its side.
pub build_intent-Within :
    (c : Config) (now : ℕ) (id : String) (d : RiskDecision) (m : MarketDefinition)
    (outcome : String) (e : Engine) (i : OrderIntent)
    → 0 < m.tick_size
    → build_intent c now id d m outcome e ≡ ok i
    → (d.allowed ≡ true)
      × (now ≤ d.timestamp_ms + 3000)
      × (is_used d.decision_id e ≡ false)
      × Within d.side i d
build_intent-Within c now id d m outcome e i h b =
    let a = build_intent-Approved c now id d m outcome e i b in
    (
      a.allowed,
      not_expired a.recent,
      a.unused,
      rw (a.built) (draft-Within d.side c now id d m outcome h),
    )
  where
    not_expired : ltb (d.timestamp_ms + 3000) now ≡ false → now ≤ d.timestamp_ms + 3000
    not_expired r = ground arith

count-lookup :
    (p : OrderRecord → Bool) (id : String) (r : OrderRecord) (d : Dict OrderRecord)
    → lookup id d ≡ some r
    → p r ≡ true
    → 0 < count p (values d)
unfolding lookup
count-lookup p id r [] h q = cc
count-lookup p id r ((j, s) ∷ d) h q = ground (arith, count-lookup p id r d)

-- While the outcome of one submission is unknown, no `execute` goes through.
pub unknown_blocks :
    (c : Config) (now : ℕ) (id : String) (d : RiskDecision) (m : MarketDefinition)
    (outcome : String) (s : Submission) (e e' : Engine)
    → 0 < unknown_count e
    → execute c now id d m outcome s e ≢ ok e'
unknown_blocks c now id d m outcome s e e' u x =
    let k = (execute-Executed c now id d m outcome s e e' x).begun.all_known in blocked k
  where
    blocked : ltb 0 (unknown_count e) ≡ false → ⊥
    blocked k = ground arith

-- A submission of which it is not known whether the venue took it.
abbrev pub IsAmbiguous : Submission → Type 0
IsAmbiguous (unreachable now name) = Unit
IsAmbiguous (failed now name) = Unit
IsAmbiguous (acked a) = a.ambiguous ≡ true

ambiguous_record :
    (s : Submission) (i : OrderIntent)
    → IsAmbiguous s
    → ((outcome_record s i).status ≡ OrderStatus.unknown) × ((outcome_record s i).intent ≡ i)
ambiguous_record (unreachable now name) i h = (refl, refl)
ambiguous_record (failed now name) i h = (refl, refl)
ambiguous_record (acked a) i h = rw h (refl, refl)

finish-unknown :
    (s : Submission) (i : OrderIntent) (e : Engine)
    → IsAmbiguous s
    → 0 < unknown_count (finish s i e)
unfolding finish save unknown_count
finish-unknown s i e h =
    let r = outcome_record s i in
    let a = ambiguous_record s i h in
    count-lookup (λ q. same_status q.status OrderStatus.unknown) r.intent.intent_id r
      (insert r.intent.intent_id r
        (index_exchange_id (truthy r.exchange_order_id) i.intent_id e).orders)
      (lookup-insert_self r.intent.intent_id r _) (rw (a.0) refl)

-- After an `execute` whose submission timed out, failed or was acknowledged ambiguously, the next one
-- under the same configuration, of whatever decision, does not go through.
pub ambiguity_blocks :
    (c : Config) (now : ℕ) (id : String) (d : RiskDecision) (m : MarketDefinition)
    (outcome : String) (s : Submission) (e e' : Engine)
    → IsAmbiguous s
    → execute c now id d m outcome s e ≡ ok e'
    → (now' : ℕ) (id' : String) (d' : RiskDecision) (m' : MarketDefinition) (outcome' : String)
      (s' : Submission) (e'' : Engine)
    → execute c now' id' d' m' outcome' s' e' ≢ ok e''
ambiguity_blocks c now id d m outcome s e e' a x now' id' d' m' outcome' s' e'' =
    let done = execute-Executed c now id d m outcome s e e' x in
    unknown_blocks c now' id' d' m' outcome' s' e' e''
      (rw (done.finished) (finish-unknown s done.intent done.middle a))
