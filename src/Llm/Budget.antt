-- ===== src/Llm/Budget.antt =====
-- `LLMBudget` of src/polymarket_bot/llm/budget.py. USD amounts count 1e-10: a price for a million
-- tokens counts 0.01 USD and a multiplier 0.01, so every product is exact. `debounce_per_market_s`
-- is given in milliseconds.
use claude_route.Base.{
  ℕ, ◌+◌, ◌-◌, ◌*◌, ◌%◌, String, Bool, false, Option, none, some, List, [], ◌∷◌, ◌++◌, count,
  length, ltb, leb, ◌==◌, if◌then◌else◌,
}
use claude_route.Base.Dict.{Dict, lookup, insert}

abbrev pub minute_ms : ℕ
minute_ms = 60_000

abbrev pub hour_ms : ℕ
hour_ms = 3_600_000

abbrev pub day_ms : ℕ
day_ms = 86_400_000

-- UTC midnight: a day of UTC has 86400 seconds.
unfoldable pub day_start_ms : ℕ → ℕ
day_start_ms now_ms = now_ms - now_ms % day_ms

pub record BudgetConfig : Type 0 where
  pub max_tokens : ℕ
  pub server_side_fallback : Bool
  pub max_calls_per_minute : ℕ
  pub max_calls_per_hour : ℕ
  pub max_spend_per_day_usd : ℕ
  pub input_price_per_mtok_usd : ℕ
  pub output_price_per_mtok_usd : ℕ
  pub debounce_per_market_ms : ℕ
  pub cache_write_price_multiplier : ℕ
  pub cache_read_price_multiplier : ℕ

pub record TokenUsage : Type 0 where
  pub input_tokens : ℕ
  pub output_tokens : ℕ
  pub cache_creation_input_tokens : ℕ
  pub cache_read_input_tokens : ℕ

unfoldable pub usage_cost_usd : BudgetConfig → TokenUsage → ℕ
usage_cost_usd cfg u =
    u.input_tokens * cfg.input_price_per_mtok_usd * 100
    + u.cache_creation_input_tokens * cfg.input_price_per_mtok_usd
      * cfg.cache_write_price_multiplier
    + u.cache_read_input_tokens * cfg.input_price_per_mtok_usd * cfg.cache_read_price_multiplier
    + u.output_tokens * cfg.output_price_per_mtok_usd * 100

abbrev pub attempts : BudgetConfig → ℕ
attempts cfg = if cfg.server_side_fallback then 2 else 1

unfoldable pub worst_case_cost_usd : BudgetConfig → ℕ → ℕ
worst_case_cost_usd cfg prompt_bytes =
    attempts cfg
    * usage_cost_usd cfg (record {
      input_tokens = prompt_bytes;
      output_tokens = cfg.max_tokens;
      cache_creation_input_tokens = 0;
      cache_read_input_tokens = 0;
    })

-- `calls` holds the times of the calls, the oldest first.
pub record Budget : Type 0 where
  pub calls : List ℕ
  pub day : ℕ
  pub spent_today_usd : ℕ
  pub last_call_by_market : Dict ℕ

unfoldable pub new : ℕ → ℕ → Budget
new spent_today_usd now_ms = record {
  calls = [];
  day = day_start_ms now_ms;
  spent_today_usd = spent_today_usd;
  last_call_by_market = [];
}

-- The loop that takes calls of an hour ago or more off the left end
abbrev pub drop_old : ℕ → List ℕ → List ℕ
drop_old now_ms [] = []
drop_old now_ms (t ∷ ts) =
    let rest = drop_old now_ms ts in if leb hour_ms (now_ms - t) then rest else t ∷ ts

-- `_roll`
unfoldable pub roll : ℕ → Budget → Budget
roll now_ms b =
    let day = day_start_ms now_ms in
    record b {
      calls = drop_old now_ms b.calls;
      day = day;
      spent_today_usd = if day == b.day then b.spent_today_usd else 0;
    }

pub data BlockedReason : Type 0 where
  debounced over_budget : BlockedReason
  minute_rate hour_rate : ℕ → BlockedReason

abbrev debounces : ℕ → ℕ → Option ℕ → Bool
debounces limit_ms now_ms none = false
debounces limit_ms now_ms (some last) = ltb (now_ms - last) limit_ms

-- The calls of the last minute
abbrev pub per_minute : ℕ → List ℕ → ℕ
per_minute now_ms = count (λ t. ltb (now_ms - t) minute_ms)

-- The tests of `blocked_reason` on a budget that has been rolled
unfoldable pub refusal : BudgetConfig → ℕ → String → ℕ → Budget → Option BlockedReason
refusal cfg now_ms market_key prompt_bytes b =
    if debounces cfg.debounce_per_market_ms now_ms (lookup market_key b.last_call_by_market)
    then some debounced
    else if leb cfg.max_calls_per_minute (per_minute now_ms b.calls)
    then some (minute_rate (per_minute now_ms b.calls))
    else if leb cfg.max_calls_per_hour (length b.calls)
    then some (hour_rate (length b.calls))
    else if ltb cfg.max_spend_per_day_usd (b.spent_today_usd + worst_case_cost_usd cfg prompt_bytes)
    then some over_budget
    else none

-- `blocked_reason`, which rolls first: the reason, and the budget it leaves
abbrev pub blocked_reason : BudgetConfig → ℕ → String → ℕ → Budget → Option BlockedReason × Budget
blocked_reason cfg now_ms market_key prompt_bytes b =
    let b' = roll now_ms b in (refusal cfg now_ms market_key prompt_bytes b', b')

unfoldable pub record_call : ℕ → String → ℕ → Budget → Budget
record_call now_ms market_key cost_usd b =
    let b' = roll now_ms b in
    record b' {
      calls = b'.calls ++ now_ms ∷ [];
      last_call_by_market = insert market_key now_ms b'.last_call_by_market;
      spent_today_usd = b'.spent_today_usd + cost_usd;
    }
