-- ===== src/Risk/Entry/Safety.antt =====
-- Proofs on `evaluate_entry` of risk/engine.py.
use Prim.Native.Nat.{◌^◌}
use native.Mathlib.Nat.{pow-zero, pow-suc, mul-pos}
use claude_route.Base.{
  ℕ, zero, suc, ◌+◌, ◌-◌, ◌*◌, ◌≤◌, ◌<◌, ◌≡◌, ◌⊎◌, inl, inr, refl, ap, ◌∙◌, subst, String, true,
  false, ◌&&◌, Option, none, some, List, [], ◌∷◌, ◌++◌, arith, is_empty, Bool-cases,
}
use claude_route.Base.Int.{ℤ}
use claude_route.Domain.Types.{Side, same_state, same_state-eq}
use claude_route.Domain.Market.{FeeSchedule, MarketDefinition, fee_rate_at}
use claude_route.Domain.Decisions.{RiskCheck, RiskDecision}
use claude_route.Risk.Policy.{RiskPolicy, one_usd}
use claude_route.Risk.Ticks.{on_tick}
use claude_route.Risk.Loss.{loss_limit_breaches}
use claude_route.Risk.Views.{
  EntryContext, TokenQuote, MarketSnapshot, TradeCandidate, quote, exposure_usd,
}
use claude_route.Risk.Sizing.{existing_cost, exposure_cap, price_part, fee_part, available_cash}
use claude_route.Risk.Sizing.Caps.{size_of-IsWithinCaps}
use claude_route.Risk.Entry.{
  all_passed, common_state_checks, state_checks, market_checks, freshness_checks, price_checks,
  sizing_checks, rate_checks, entry_checks, entry_size, entry_decision, entry_with_quote,
  evaluate_entry, expected_state,
}

pub all-append : (xs ys : List RiskCheck) → all_passed (xs ++ ys) ≡ (all_passed xs && all_passed ys)
all-append [] ys = refl
all-append (x ∷ xs) ys = ground (arith, all-append xs ys)

all_seven :
    (a b c d e f g : List RiskCheck)
    → all_passed (a ++ b ++ c ++ d ++ e ++ f ++ g) ≡ true
    → (all_passed a ≡ true)
      × (all_passed b ≡ true)
      × (all_passed c ≡ true)
      × (all_passed d ≡ true)
      × (all_passed e ≡ true)
      × (all_passed f ≡ true)
      × (all_passed g ≡ true)
all_seven a b c d e f g h = ground (
  arith,
  all-append (a ++ b ++ c ++ d ++ e ++ f) g,
  all-append (a ++ b ++ c ++ d ++ e) f,
  all-append (a ++ b ++ c ++ d) e,
  all-append (a ++ b ++ c) d,
  all-append (a ++ b) c,
  all-append a b,
)

-- Every section of the checks has passed.
pub record Cleared (float : ℕ → ℤ) (p : RiskPolicy) (now : ℕ) (c : TradeCandidate)
    (s : MarketSnapshot) (q : TokenQuote) (x : EntryContext) (size : ℕ) : Type 0 where
  pub common : all_passed (common_state_checks p x.mode x.kill_switch_engaged x.health) ≡ true
  pub state : all_passed (state_checks p now x) ≡ true
  pub market : all_passed (market_checks c s.market x) ≡ true
  pub fresh : all_passed (freshness_checks p s q) ≡ true
  pub price : all_passed (price_checks float p c s.market q) ≡ true
  pub sizing : all_passed (sizing_checks p c s.market x size) ≡ true
  pub rate : all_passed (rate_checks p now c x) ≡ true

entry_checks-Cleared :
    (float : ℕ → ℤ) (p : RiskPolicy) (now : ℕ) (c : TradeCandidate) (s : MarketSnapshot)
    (q : TokenQuote) (x : EntryContext) (size : ℕ)
    → all_passed (entry_checks float p now c s q x size) ≡ true
    → Cleared float p now c s q x size
entry_checks-Cleared float p now c s q x size h =
    let (common, state, market, fresh, price, sizing, rate) =
      all_seven (common_state_checks p x.mode x.kill_switch_engaged x.health) (state_checks p now x)
        (market_checks c s.market x) (freshness_checks p s q) (price_checks float p c s.market q)
        (sizing_checks p c s.market x size) (rate_checks p now c x) h in
    record {
      common = common;
      state = state;
      market = market;
      fresh = fresh;
      price = price;
      sizing = sizing;
      rate = rate;
    }

-- What an allowed entry guarantees.
pub record IsSafeEntry (p : RiskPolicy) (c : TradeCandidate) (s : MarketSnapshot) (x : EntryContext)
    (d : RiskDecision) : Type 0 where
  pub no_kill_switch : x.kill_switch_engaged ≡ false
  pub no_unknown_order : x.health.unknown_orders ≡ 0
  pub right_state : x.bot_state ≡ expected_state x.mode
  pub no_breach : is_empty (loss_limit_breaches p x.portfolio) ≡ true
  pub buys : d.side ≡ Side.buy
  pub price_band : (p.min_entry_price ≤ d.limit_price) × (d.limit_price ≤ p.max_entry_price)
  pub price_on_tick : on_tick d.limit_price s.market.tick_size ≡ true
  pub large_enough : one_usd ≤ d.max_size_usd
  pub order_limit : d.max_size_usd ≤ p.max_order_size_usd
  pub candidate_limit : d.max_size_usd ≤ c.notional_usd
  pub position_limit : existing_cost c x.portfolio + d.max_size_usd ≤ p.max_position_usd
  pub exposure_limit : exposure_usd x.portfolio + d.max_size_usd ≤ p.max_total_exposure_usd
  pub cash_limit :
      let fee = fee_rate_at s.market.fee_schedule c.worst_price in
      d.max_size_usd * (price_part c.worst_price fee + fee_part c.worst_price fee)
      ≤ available_cash p x.portfolio * price_part c.worst_price fee

pow-pos : (n e : ℕ) → 0 < n → 0 < n ^ e
pow-pos n zero h = rw (pow-zero n) (omega arith)
pow-pos n (suc e) h = rw (pow-suc n e) (mul-pos (pow-pos n e h) h)

fee_rate_at-pos : (f : FeeSchedule) (price : ℕ) → 0 < (fee_rate_at f price).den
unfolding fee_rate_at
fee_rate_at-pos f price = ground (arith, pow-pos 100_000_000 f.exponent)

common_cleared :
    (p : RiskPolicy) (x : EntryContext)
    → all_passed (common_state_checks p x.mode x.kill_switch_engaged x.health) ≡ true
    → (x.kill_switch_engaged ≡ false) × (x.health.unknown_orders ≡ 0)
unfolding common_state_checks
common_cleared p x h = ground arith

state_cleared :
    (p : RiskPolicy) (now : ℕ) (x : EntryContext)
    → all_passed (state_checks p now x) ≡ true
    → (same_state x.bot_state (expected_state x.mode) ≡ true)
      × (is_empty (loss_limit_breaches p x.portfolio) ≡ true)
unfolding state_checks
state_cleared p now x h = ground arith

price_cleared :
    (float : ℕ → ℤ) (p : RiskPolicy) (c : TradeCandidate) (m : MarketDefinition) (q : TokenQuote)
    → all_passed (price_checks float p c m q) ≡ true
    → (p.min_entry_price ≤ c.worst_price)
      × (c.worst_price ≤ p.max_entry_price)
      × (on_tick c.worst_price m.tick_size ≡ true)
unfolding price_checks
price_cleared float p c m q h = ground arith

sizing_cleared :
    (p : RiskPolicy) (c : TradeCandidate) (m : MarketDefinition) (x : EntryContext) (size : ℕ)
    → all_passed (sizing_checks p c m x size) ≡ true
    → (0 < p.max_position_usd - existing_cost c x.portfolio)
      × (0 < p.max_total_exposure_usd - exposure_usd x.portfolio)
      × (one_usd ≤ size)
unfolding sizing_checks exposure_cap
sizing_cleared p c m x size h = ground arith

entry_decision-IsSafeEntry :
    (float : ℕ → ℤ) (p : RiskPolicy) (now : ℕ) (id : String) (c : TradeCandidate)
    (s : MarketSnapshot) (q : TokenQuote) (x : EntryContext)
    → all_passed (entry_checks float p now c s q x (entry_size p c s x)) ≡ true
    → IsSafeEntry p c s x (
        entry_decision now id c
          (entry_checks float p now c s q x (entry_size p c s x))
          (entry_size p c s x))
entry_decision-IsSafeEntry float p now id c s q x h =
    let fee = fee_rate_at s.market.fee_schedule c.worst_price in
    let size = entry_size p c s x in
    let v = entry_checks-Cleared float p now c s q x size h in
    let caps =
      size_of-IsWithinCaps p c x fee (fee_rate_at-pos s.market.fee_schedule c.worst_price) in
    let (kill, known) = common_cleared p x v.common in
    let (state, breach) = state_cleared p now x v.state in
    let (low, high, tick) = price_cleared float p c s.market q v.price in
    let (position, exposure, large) = sizing_cleared p c s.market x size v.sizing in
    record {
      no_kill_switch = kill;
      no_unknown_order = known;
      right_state = same_state-eq x.bot_state (expected_state x.mode) state;
      no_breach = breach;
      buys = refl;
      price_band = (low, high);
      price_on_tick = tick;
      large_enough = rw h large;
      order_limit = rw h caps.order;
      candidate_limit = rw h caps.candidate;
      position_limit = rw h (omega (arith, position, caps.position));
      exposure_limit = rw h (omega (arith, exposure, caps.exposure));
      cash_limit = rw h caps.cash;
    }

with_quote-IsSafeEntry :
    (float : ℕ → ℤ) (p : RiskPolicy) (now : ℕ) (id : String) (c : TradeCandidate)
    (s : MarketSnapshot) (x : EntryContext) (o : Option TokenQuote) (d : RiskDecision)
    → entry_with_quote float p now id c s x o ≡ some d
    → d.allowed ≡ true
    → IsSafeEntry p c s x d
with_quote-IsSafeEntry float p now id c s x none d e h = cc
with_quote-IsSafeEntry float p now id c s x (some q) d e h =
    let same = some_inj e in
    subst (IsSafeEntry p c s x) same (
      entry_decision-IsSafeEntry float p now id c s q x
        (ap (λ (r : RiskDecision). r.allowed) same ∙ h))
  where
    some_inj : {a b : RiskDecision} → ◌≡◌ {A = Option RiskDecision} (some a) (some b) → a ≡ b
    some_inj k = cc

-- An entry that the risk engine allows: the kill switch is not engaged, no order is in an unknown
-- state, the bot is in the state of its mode, and no loss limit is breached; it buys, at a price in
-- the band and on the tick, for at least 1 USD and at most what the candidate asks for and an order
-- may be; with it the position, the exposure, and the cash with the fee stay within their limits.
pub evaluate_entry-IsSafeEntry :
    (float : ℕ → ℤ) (p : RiskPolicy) (now : ℕ) (id : String) (c : TradeCandidate)
    (s : MarketSnapshot) (x : EntryContext) (d : RiskDecision)
    → evaluate_entry float p now id c s x ≡ some d
    → d.allowed ≡ true
    → IsSafeEntry p c s x d
unfolding evaluate_entry
evaluate_entry-IsSafeEntry float p now id c s x d e h =
    with_quote-IsSafeEntry float p now id c s x (quote s c.outcome) d e h

decision_refused :
    (now : ℕ) (id : String) (c : TradeCandidate) (checks : List RiskCheck) (size : ℕ)
    → let d = entry_decision now id c checks size in
      (d.allowed ≡ all_passed d.checks)
      × ((d.allowed ≡ true) ⊎ ((d.max_size_usd ≡ 0) × (d.max_shares ≡ 0)))
decision_refused now id c checks size = elim (Bool-cases (all_passed checks)) [
  | inl h ↦ (refl, inl h)
  | inr h ↦ rw h (refl, inr (refl, refl))
]

-- An entry is allowed exactly when all its checks pass, and one that is refused is of size zero.
pub evaluate_entry_refused :
    (float : ℕ → ℤ) (p : RiskPolicy) (now : ℕ) (id : String) (c : TradeCandidate)
    (s : MarketSnapshot) (x : EntryContext) (d : RiskDecision)
    → evaluate_entry float p now id c s x ≡ some d
    → (d.allowed ≡ all_passed d.checks)
      × ((d.allowed ≡ true) ⊎ ((d.max_size_usd ≡ 0) × (d.max_shares ≡ 0)))
unfolding evaluate_entry
evaluate_entry_refused float p now id c s x d e = by_quote (quote s c.outcome) e
  where
    some_inj : {a b : RiskDecision} → ◌≡◌ {A = Option RiskDecision} (some a) (some b) → a ≡ b
    some_inj k = cc

    by_quote :
        (o : Option TokenQuote)
        → entry_with_quote float p now id c s x o ≡ some d
        → (d.allowed ≡ all_passed d.checks)
          × ((d.allowed ≡ true) ⊎ ((d.max_size_usd ≡ 0) × (d.max_shares ≡ 0)))
    by_quote none k = cc
    by_quote (some q) k =
        subst
          (λ r.
            (r.allowed ≡ all_passed r.checks)
            × ((r.allowed ≡ true) ⊎ ((r.max_size_usd ≡ 0) × (r.max_shares ≡ 0))))
          (some_inj k)
          (decision_refused now id c (entry_checks float p now c s q x (entry_size p c s x))
            (entry_size p c s x))
