-- ===== src/Execution/Begun.antt =====
-- What `begin` and `execute` of Execution.Submit have checked and written where they return.
use claude_route.Base.{
  ℕ, ◌+◌, ◌≡◌, String, true, false, not, arith, length, ltb, leb, Result, ok, err, bind_ok,
  raise_if_ok, sym,
}
use claude_route.Domain.Orders.{OrderIntent, make_intent, ValueError}
use claude_route.Domain.Market.{MarketDefinition, outcome_of}
use claude_route.Domain.Decisions.{RiskDecision}
use claude_route.Execution.{Config, Engine, Store, open_orders, unknown_count}
use claude_route.Execution.Submit.{
  max_decision_age_ms, is_used, lift_value, same_outcome, draft, build_intent, insert_order_intent,
  submit, begin, Submission, finish, execute,
}

-- What `build_intent` has checked of the decision.
pub record Approved (c : Config) (now : ℕ) (id : String) (d : RiskDecision) (m : MarketDefinition)
    (outcome : String) (e : Engine) (i : OrderIntent) : Type 0 where
  pub allowed : d.allowed ≡ true
  pub recent : ltb (d.timestamp_ms + max_decision_age_ms) now ≡ false
  pub unused : is_used d.decision_id e ≡ false
  pub token : same_outcome (outcome_of m d.token_id) outcome ≡ true
  pub built : i ≡ draft d.side c now id d m outcome

lift_value_ok :
    (r : Result ValueError OrderIntent) (i : OrderIntent) → lift_value r ≡ ok i → r ≡ ok i
lift_value_ok (ok a) i h = ground arith
lift_value_ok (err e) i h = cc

make_intent_ok : (j i : OrderIntent) → make_intent j ≡ ok i → i ≡ j
unfolding make_intent
make_intent_ok j i h = ground arith

pub build_intent-Approved :
    (c : Config) (now : ℕ) (id : String) (d : RiskDecision) (m : MarketDefinition)
    (outcome : String) (e : Engine) (i : OrderIntent)
    → build_intent c now id d m outcome e ≡ ok i
    → Approved c now id d m outcome e i
unfolding build_intent
build_intent-Approved c now id d m outcome e i h =
    let (allowed, h1) = raise_if_ok (not d.allowed) _ _ h in
    let (recent, h2) = raise_if_ok (ltb (d.timestamp_ms + max_decision_age_ms) now) _ _ h1 in
    let (unused, h3) = raise_if_ok (is_used d.decision_id e) _ _ h2 in
    let (token, h4) = raise_if_ok (not (same_outcome (outcome_of m d.token_id) outcome)) _ _ h3 in
    record {
      allowed = ground arith;
      recent = recent;
      unused = unused;
      token = ground arith;
      built = make_intent_ok (draft d.side c now id d m outcome) i (lift_value_ok _ i h4);
    }

-- What `begin` has checked and written.
pub record Begun (c : Config) (now : ℕ) (id : String) (d : RiskDecision) (m : MarketDefinition)
    (outcome : String) (e : Engine) (i : OrderIntent) (e' : Engine) : Type 0 where
  pub room : leb c.max_in_flight_orders (length (open_orders e)) ≡ false
  pub all_known : ltb 0 (unknown_count e) ≡ false
  pub approved : Approved c now id d m outcome e i
  pub store : Store
  pub inserted : insert_order_intent i e.store ≡ ok store
  pub submitted : e' ≡ submit i store e

ok_pair :
    {E A B : Type 0} (a c : A) (b d : B)
    → ◌≡◌ {A = Result E (A × B)} (ok (a, b)) (ok (c, d))
    → (a ≡ c) × (b ≡ d)
ok_pair a c b d h = (cc, cc)

Begun-submit :
    (c : Config) (now : ℕ) (id : String) (d : RiskDecision) (m : MarketDefinition)
    (outcome : String) (e e' : Engine) (i j : OrderIntent) (s : Store)
    → leb c.max_in_flight_orders (length (open_orders e)) ≡ false
    → ltb 0 (unknown_count e) ≡ false
    → build_intent c now id d m outcome e ≡ ok j
    → insert_order_intent j e.store ≡ ok s
    → (j ≡ i) × (submit j s e ≡ e')
    → Begun c now id d m outcome e i e'
Begun-submit c now id d m outcome e e' i j s room all_known built inserted (p, q) = record {
  room = room;
  all_known = all_known;
  approved = build_intent-Approved c now id d m outcome e i (rw (← p) built);
  store = s;
  inserted = rw (← p) inserted;
  submitted = rw (← p) (sym q);
}

pub begin-Begun :
    (c : Config) (now : ℕ) (id : String) (d : RiskDecision) (m : MarketDefinition)
    (outcome : String) (e e' : Engine) (i : OrderIntent)
    → begin c now id d m outcome e ≡ ok (i, e')
    → Begun c now id d m outcome e i e'
unfolding begin
begin-Begun c now id d m outcome e e' i h =
    let (room, h1) = raise_if_ok (leb c.max_in_flight_orders (length (open_orders e))) _ _ h in
    let (all_known, h2) = raise_if_ok (ltb 0 (unknown_count e)) _ _ h1 in
    let (j, h3, h4) = bind_ok (build_intent c now id d m outcome e) _ h2 in
    let (s, h5, h6) = bind_ok (insert_order_intent j e.store) _ h4 in
    Begun-submit c now id d m outcome e e' i j s room all_known h3 h5
      (ok_pair j i (submit j s e) e' h6)

-- What an `execute` that does not raise has done.
pub record Executed (c : Config) (now : ℕ) (id : String) (d : RiskDecision) (m : MarketDefinition)
    (outcome : String) (s : Submission) (e e' : Engine) : Type 0 where
  pub intent : OrderIntent
  pub middle : Engine
  pub begun : Begun c now id d m outcome e intent middle
  pub finished : e' ≡ finish s intent middle

ok_eq : {E A : Type 0} (a b : A) → ◌≡◌ {A = Result E A} (ok a) (ok b) → a ≡ b
ok_eq a b h = cc

pub execute-Executed :
    (c : Config) (now : ℕ) (id : String) (d : RiskDecision) (m : MarketDefinition)
    (outcome : String) (s : Submission) (e e' : Engine)
    → execute c now id d m outcome s e ≡ ok e'
    → Executed c now id d m outcome s e e'
unfolding execute
execute-Executed c now id d m outcome s e e' h =
    let (begun, h1, h2) = bind_ok (begin c now id d m outcome e) _ h in
    record {
      intent = begun.0;
      middle = begun.1;
      begun = begin-Begun c now id d m outcome e begun.1 begun.0 h1;
      finished = sym (ok_eq (finish s begun.0 begun.1) e' h2);
    }
