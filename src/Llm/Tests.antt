-- ===== src/Llm/Tests.antt =====
-- The review of candidates on concrete calls.
use claude_route.Base.{◌≤◌, ◌≡◌, refl, String, true, false, none, some, [], length, ltb, arith}
use claude_route.Base.Int.{pos}
use claude_route.Base.Dict.{lookup, insert}
use claude_route.Domain.Types.{Side}
use claude_route.Risk.Views.{TradeCandidate}
use claude_route.Llm.Budget.{
  BudgetConfig, TokenUsage, Budget, new, day_start_ms, usage_cost_usd, worst_case_cost_usd, roll,
  refusal, blocked_reason, per_minute, record_call,
}
use claude_route.Llm.Limits.{record_call_keeps_limits}
use claude_route.Llm.Reviewer.{
  Mode, ReviewConfig, Action, LlmReview, Outcome, CallResult, Reviewer, tighten_candidate,
  verdict_for, begin_review, finish_review,
}
use claude_route.Llm.Verdicts.{Allows, verdict_for-Allows}
use claude_route.Llm.Tighten.{IsTighter, tighten_candidate-IsTighter}

-- 5 USD a million tokens in, 25 USD out; a day's budget of one worst case of a prompt of 1000 bytes
abbrev budget_config : BudgetConfig
budget_config = record {
  max_tokens = 2_000;
  server_side_fallback = true;
  max_calls_per_minute = 2;
  max_calls_per_hour = 20;
  max_spend_per_day_usd = 1_100_000_000;
  input_price_per_mtok_usd = 500;
  output_price_per_mtok_usd = 2_500;
  debounce_per_market_ms = 60_000;
  cache_write_price_multiplier = 125;
  cache_read_price_multiplier = 10;
}

worst : worst_case_cost_usd budget_config 1_000 ≡ 1_100_000_000
unfolding worst_case_cost_usd usage_cost_usd
worst = refl

abbrev fresh : Budget
fresh = new 0 1_000_000

allowed : (blocked_reason budget_config 1_000_000 "c:t" 1_000 fresh).0 ≡ none
unfolding new day_start_ms roll refusal worst_case_cost_usd usage_cost_usd lookup
allowed = refl

cost_le : 900 ≤ worst_case_cost_usd budget_config 1_000
cost_le = rw worst (omega arith)

record_call_keeps_limits_example :
    let b' =
      record_call 1_002_000 "c:t" 900
        (blocked_reason budget_config 1_000_000 "c:t" 1_000 fresh).1 in
    (per_minute 1_002_000 b'.calls ≤ 2)
    × (length b'.calls ≤ 20)
    × (b'.spent_today_usd ≤ 1_100_000_000)
record_call_keeps_limits_example =
    record_call_keeps_limits budget_config 1_000_000 1_002_000 "c:t" 1_000 900 fresh allowed
      (omega arith) cost_le

abbrev usage : TokenUsage
usage = record {
  input_tokens = 200;
  output_tokens = 300;
  cache_creation_input_tokens = 100;
  cache_read_input_tokens = 50;
}

abbrev config : ReviewConfig
config = record {
  mode = Mode.required;
  allow_trading_without_llm = true;
  approval_ttl_ms = 20_000;
  cache_ttl_ms = 60_000;
  max_price_move_since_review = 200;
  review_min_conservative_edge = pos 50;
  min_approve_confidence = 500;
  probability_floor = pos 1;
  budget = budget_config;
}

abbrev candidate : String → TradeCandidate
candidate token = record {
  condition_id = "c";
  token_id = token;
  outcome = "Up";
  side = Side.buy;
  fair_probability = pos 650;
  probability_lower = pos 600;
  probability_upper = pos 700;
  uncertainty = pos 100;
  executable_price = 5_000;
  worst_price = 5_000;
  estimated_slippage = pos 0;
  expected_edge = pos 100;
  conservative_edge = pos 80;
  worst_case_edge = pos 70;
  liquidity_usd = 1_000;
  notional_usd = 100;
  rejections = [];
}

abbrev review : LlmReview
review = record {
  action = Action.approve;
  fair_probability_override = some (pos 640);
  confidence = 900;
  max_holding_time_seconds = none;
}

abbrev approval : CallResult
approval = record { outcome = Outcome.well; review = some review; cost_usd = 1_100_000_000 }

abbrev idle : Reviewer
idle = record { budget = fresh; entries = []; in_flight = [] }

abbrev reviewed : Reviewer
reviewed =
    finish_review config (candidate "t") 1_002_000 approval
      (begin_review config true (candidate "t") 1_000 1_000_000 idle).1

needs_call : (verdict_for config true (candidate "t") 1_000_000 idle).allowed ≡ false
unfolding verdict_for lookup
needs_call = refl

approved : (verdict_for config true (candidate "t") 1_010_000 reviewed).allowed ≡ true
unfolding verdict_for begin_review finish_review record_call new day_start_ms roll refusal
    worst_case_cost_usd usage_cost_usd lookup insert
approved = refl

expired : (verdict_for config true (candidate "t") 1_030_000 reviewed).allowed ≡ false
unfolding verdict_for begin_review finish_review record_call new day_start_ms roll refusal
    worst_case_cost_usd usage_cost_usd lookup insert
expired = refl

verdict_for-Allows_example :
    Allows config
      (candidate "t")
      1_010_000
      reviewed
      (verdict_for config true (candidate "t") 1_010_000 reviewed)
verdict_for-Allows_example =
    verdict_for-Allows config true (candidate "t") 1_010_000 reviewed approved

tighten_candidate-IsTighter_example :
    IsTighter (pos 1) (candidate "t") (tighten_candidate (pos 1) (candidate "t") review)
tighten_candidate-IsTighter_example = tighten_candidate-IsTighter (pos 1) (candidate "t") review

-- Two reviews of different tokens that overlap are both let through, since neither is booked yet,
-- and the day's spend ends above its limit.
abbrev overlapping : Reviewer
overlapping = finish_review config (candidate "u") 1_003_000 approval (
    finish_review config (candidate "t") 1_002_000 approval (
      (begin_review config true (candidate "u") 1_000 1_000_001
        (begin_review config true (candidate "t") 1_000 1_000_000 idle).1).1))

both_begin :
    (begin_review config true
      (candidate "u")
      1_000
      1_000_001
      (begin_review config true (candidate "t") 1_000 1_000_000 idle).1).0
    ≡ true
unfolding begin_review new day_start_ms roll refusal worst_case_cost_usd usage_cost_usd lookup
both_begin = refl

overspent : ltb 1_100_000_000 overlapping.budget.spent_today_usd ≡ true
unfolding begin_review finish_review record_call new day_start_ms roll refusal worst_case_cost_usd
    usage_cost_usd lookup insert
overspent = refl
