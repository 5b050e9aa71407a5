-- ===== src/Llm/Limits.antt =====
-- What a call that the budget of src/polymarket_bot/llm/budget.py lets through can cost, and how
-- often calls are let through.
use claude_route.Base.{
  ℕ, suc, ◌+◌, ◌*◌, ◌≤◌, ◌<◌, ◌≡◌, String, Bool, true, false, none, List, [], ◌∷◌, ◌++◌, length,
  length-append, if◌then◌else◌, arith,
}
use native.Mathlib.Nat.{mul-le-mul_left, mul-le-mul_right}
use claude_route.Llm.Budget.{
  BudgetConfig, TokenUsage, Budget, usage_cost_usd, attempts, worst_case_cost_usd, drop_old, roll,
  per_minute, refusal, blocked_reason, record_call,
}

per_minute-append :
    (now t : ℕ) (ts : List ℕ) → per_minute now (ts ++ t ∷ []) ≤ suc (per_minute now ts)
per_minute-append now t [] = ground arith
per_minute-append now t (s ∷ ts) = ground (arith, per_minute-append now t ts)

-- Later, no more of the same calls are of the last minute, nor of the last hour.
per_minute-later :
    (now then_ms : ℕ) (ts : List ℕ) → now ≤ then_ms → per_minute then_ms ts ≤ per_minute now ts
per_minute-later now then_ms [] h = omega arith
per_minute-later now then_ms (t ∷ ts) h = ground (arith, per_minute-later now then_ms ts h)

per_minute-drop_old :
    (now at : ℕ) (ts : List ℕ) → per_minute at (drop_old now ts) ≤ per_minute at ts
per_minute-drop_old now at [] = omega arith
per_minute-drop_old now at (t ∷ ts) = ground (arith, per_minute-drop_old now at ts)

length-drop_old : (now : ℕ) (ts : List ℕ) → length (drop_old now ts) ≤ length ts
length-drop_old now [] = omega arith
length-drop_old now (t ∷ ts) = ground (arith, length-drop_old now ts)

allowed_within :
    (cfg : BudgetConfig) (now : ℕ) (key : String) (bytes : ℕ) (b : Budget)
    → refusal cfg now key bytes b ≡ none
    → (per_minute now b.calls < cfg.max_calls_per_minute)
      × (length b.calls < cfg.max_calls_per_hour)
      × (b.spent_today_usd + worst_case_cost_usd cfg bytes ≤ cfg.max_spend_per_day_usd)
unfolding refusal
allowed_within cfg now key bytes b h = ground arith

-- A call that the budget lets through, and whose cost is at most the worst case that was assumed,
-- leaves every limit kept when it is booked, at that time or later: the calls of the last minute,
-- the calls of the last hour, and the spend of the day. This is for one call at a time; calls that
-- are booked in between count on their own.
pub record_call_keeps_limits :
    (cfg : BudgetConfig) (now done : ℕ) (key : String) (bytes cost : ℕ) (b : Budget)
    → (blocked_reason cfg now key bytes b).0 ≡ none
    → now ≤ done
    → cost ≤ worst_case_cost_usd cfg bytes
    → let b' = record_call done key cost (blocked_reason cfg now key bytes b).1 in
      (per_minute done b'.calls ≤ cfg.max_calls_per_minute)
      × (length b'.calls ≤ cfg.max_calls_per_hour)
      × (b'.spent_today_usd ≤ cfg.max_spend_per_day_usd)
unfolding record_call roll
record_call_keeps_limits cfg now done key bytes cost b h le bound =
    let calls = drop_old now b.calls in
    let (minute, hour, spend) = allowed_within cfg now key bytes (roll now b) h in
    ground (
      arith,
      minute,
      hour,
      spend,
      per_minute-append done done (drop_old done calls),
      per_minute-drop_old done done calls,
      per_minute-later now done calls le,
      length-append (drop_old done calls) (done ∷ []),
      length-drop_old done calls,
    )

-- Tokens at a price and a multiplier of at most k, together at most `total` tokens at the multiplier k.
cost_le :
    (a b c p k m r total : ℕ)
    → 100 ≤ k
    → m ≤ k
    → r ≤ k
    → a + b + c ≤ total
    → a * p * 100 + b * p * m + c * p * r ≤ total * p * k
cost_le a b c p k m r total hk hm hr h = omega (
  arith,
  mul-le-mul_left (a * p) hk,
  mul-le-mul_left (b * p) hm,
  mul-le-mul_left (c * p) hr,
  mul-le-mul_right (p * k) h,
)

one_attempt : (b : Bool) → 100 ≤ (if b then 2 else 1) * 100
one_attempt true = omega arith
one_attempt false = omega arith

read_le : {r k : ℕ} → r ≤ 100 → 100 ≤ k → r ≤ k
read_le h k = omega (arith, h, k)

-- The reservation covers what the API can bill: where no more tokens come in than the prompt has
-- bytes, no more go out than are allowed, a cached token read is not dearer than a fresh one, and a
-- cached token written is not dearer than the attempts that are reserved, the cost is at most the
-- worst case.
pub usage_cost_le_worst_case :
    (cfg : BudgetConfig) (u : TokenUsage) (bytes : ℕ)
    → u.input_tokens + u.cache_creation_input_tokens + u.cache_read_input_tokens ≤ bytes
    → u.output_tokens ≤ cfg.max_tokens
    → cfg.cache_read_price_multiplier ≤ 100
    → cfg.cache_write_price_multiplier ≤ attempts cfg * 100
    → usage_cost_usd cfg u ≤ worst_case_cost_usd cfg bytes
unfolding usage_cost_usd worst_case_cost_usd
usage_cost_le_worst_case cfg u bytes a b c d =
    let tokens =
      cost_le u.input_tokens u.cache_creation_input_tokens u.cache_read_input_tokens
        cfg.input_price_per_mtok_usd (attempts cfg * 100) cfg.cache_write_price_multiplier
        cfg.cache_read_price_multiplier bytes (one_attempt cfg.server_side_fallback) d
        (read_le c (one_attempt cfg.server_side_fallback)) a in
    let out = mul-le-mul_right (cfg.output_price_per_mtok_usd * 100) b in
    let tries =
      mul-le-mul_right (cfg.max_tokens * cfg.output_price_per_mtok_usd)
        (one_attempt cfg.server_side_fallback) in
    omega (arith, tokens, out, tries)
