-- ===== src/Llm/Reviewer.antt =====
-- `CandidateReviewer` of src/polymarket_bot/llm/reviewer.py and `tighten_candidate` of
-- llm/schemas.py. The call of the API is the one place where `run_review` waits: what it does
-- before and what it does afterwards are two steps, with other steps in between. Probabilities and
-- edges count 2^-1074 and their differences are exact; `executable_price` and the price of an entry
-- count the unit of `max_price_move_since_review`. Times to live are given in milliseconds.
use claude_route.Base.{
  ℕ, ◌+◌, ◌-◌, String, Bool, true, false, not, ◌&&◌, ◌||◌, Option, none, some, List, ◌∷◌, any,
  filter, leb, str_eq, if◌then◌else◌,
}
use claude_route.Base.Text.{◌<>◌}
use claude_route.Base.Int.{ℤ, ◌-ℤ◌, max_ℤ, ltb_ℤ, leb_ℤ}
use claude_route.Base.Dict.{Dict, lookup, insert}
use claude_route.Risk.Views.{TradeCandidate}
use claude_route.Llm.Budget.{BudgetConfig, Budget, BlockedReason, blocked_reason, record_call}

pub data Mode : Type 0 where
  off advisory required : Mode

pub record ReviewConfig : Type 0 where
  pub mode : Mode
  pub allow_trading_without_llm : Bool
  pub approval_ttl_ms : ℕ
  pub cache_ttl_ms : ℕ
  pub max_price_move_since_review : ℕ
  pub review_min_conservative_edge : ℤ
  pub min_approve_confidence : ℕ
  pub probability_floor : ℤ
  pub budget : BudgetConfig

pub data Action : Type 0 where
  approve reject no_op : Action

-- `LLMReview`, with the fields that decide
pub record LlmReview : Type 0 where
  pub action : Action
  pub fair_probability_override : Option ℤ
  pub confidence : ℕ
  pub max_holding_time_seconds : Option ℕ

pub data Outcome : Type 0 where
  well refusal invalid_output truncated timeout error unavailable blocked : Outcome

-- `ClaudeCallResult`; the outcome `ok` of the source comes with a review.
pub record CallResult : Type 0 where
  pub outcome : Outcome
  pub review : Option LlmReview
  pub cost_usd : ℕ

pub data Kind : Type 0 where
  approved rejected not_reviewed : Kind

pub record Entry : Type 0 where
  pub kind : Kind
  pub ts_ms : ℕ
  pub reviewed_price : ℕ
  pub review : Option LlmReview

pub data Status : Type 0 where
  llm_off is_approved is_rejected without_review pending needs_call : Status

pub record Verdict : Type 0 where
  pub status : Status
  pub allowed : Bool
  pub candidate : TradeCandidate
  pub max_holding_s : Option ℕ

pub record Reviewer : Type 0 where
  pub budget : Budget
  pub entries : Dict Entry
  pub in_flight : List String

abbrev pub market_key : TradeCandidate → String
market_key c = c.condition_id <> ":" <> c.token_id

abbrev pub lowered : ℤ → ℤ → ℤ → ℤ
lowered floor delta x = max_ℤ floor (x -ℤ delta)

-- `tighten_candidate` with the override that the review carries
abbrev pub tighten_by : ℤ → Option ℤ → TradeCandidate → TradeCandidate
tighten_by floor none c = c
tighten_by floor (some p) c =
    let delta = c.fair_probability -ℤ p in
    let lower = lowered floor delta c.probability_lower in
    let upper = lowered floor delta c.probability_upper in
    if leb_ℤ c.fair_probability p then c else record c {
      fair_probability = lowered floor delta c.fair_probability;
      probability_lower = lower;
      probability_upper = upper;
      uncertainty = upper -ℤ lower;
      expected_edge = c.expected_edge -ℤ delta;
      conservative_edge = c.conservative_edge -ℤ delta;
      worst_case_edge = c.worst_case_edge -ℤ delta;
    }

unfoldable pub tighten_candidate : ℤ → TradeCandidate → LlmReview → TradeCandidate
tighten_candidate floor c r = tighten_by floor r.fair_probability_override c

abbrev is_advisory : Mode → Bool
is_advisory Mode.advisory = true
is_advisory _ = false

abbrev pub is_off : Mode → Bool
is_off Mode.off = true
is_off _ = false

-- `_without_review`
abbrev pub unreviewed : ReviewConfig → TradeCandidate → Verdict
unreviewed cfg c = record {
  status = without_review;
  allowed = is_advisory cfg.mode && cfg.allow_trading_without_llm;
  candidate = c;
  max_holding_s = none;
}

abbrev pub refused : Status → TradeCandidate → Verdict
refused s c = record { status = s; allowed = false; candidate = c; max_holding_s = none }

abbrev pub moved : ℕ → ℕ → ℕ
moved p q = (p - q) + (q - p)

-- The verdict of an approval; `_store_entry` gives an approval a review.
abbrev pub approval : ReviewConfig → TradeCandidate → Option LlmReview → Option Verdict
approval cfg c none = none
approval cfg c (some r) = some (record {
  status = is_approved;
  allowed = true;
  candidate = tighten_candidate cfg.probability_floor c r;
  max_holding_s = r.max_holding_time_seconds;
})

-- What an entry says now; `none` goes on as if there were no entry.
abbrev pub entry_verdict : ReviewConfig → ℕ → TradeCandidate → Kind → Entry → Option Verdict
entry_verdict cfg now c rejected e =
    if leb (now - e.ts_ms) cfg.cache_ttl_ms then some (refused is_rejected c) else none
entry_verdict cfg now c not_reviewed e =
    if leb (now - e.ts_ms) cfg.cache_ttl_ms then some (unreviewed cfg c) else none
entry_verdict cfg now c approved e =
    if leb (now - e.ts_ms) cfg.approval_ttl_ms
      && leb (moved c.executable_price e.reviewed_price) cfg.max_price_move_since_review
    then approval cfg c e.review
    else none

abbrev pub cached : ReviewConfig → ℕ → TradeCandidate → Option Entry → Option Verdict
cached cfg now c none = none
cached cfg now c (some e) = entry_verdict cfg now c e.kind e

-- The end of `verdict_for`, where no entry decides; `available` is that there is a client and it
-- can be called.
abbrev pub uncached : ReviewConfig → Bool → TradeCandidate → Verdict
uncached cfg available c =
    if ltb_ℤ c.conservative_edge cfg.review_min_conservative_edge || not available
    then unreviewed cfg c
    else refused needs_call c

abbrev pub or_else : Option Verdict → Verdict → Verdict
or_else none v = v
or_else (some w) v = w

unfoldable pub verdict_for : ReviewConfig → Bool → TradeCandidate → ℕ → Reviewer → Verdict
verdict_for cfg available c now r =
    let key = market_key c in
    if is_off cfg.mode
    then (record { status = llm_off; allowed = true; candidate = c; max_holding_s = none })
    else if any (str_eq key) r.in_flight
    then refused pending c
    else or_else (cached cfg now c (lookup key r.entries)) (uncached cfg available c)

abbrev classify_review : ReviewConfig → Option LlmReview → Action → Kind
classify_review cfg none a = not_reviewed
classify_review cfg (some r) reject = rejected
classify_review cfg (some r) approve =
    if leb cfg.min_approve_confidence r.confidence then approved else not_reviewed
classify_review cfg (some r) no_op = not_reviewed

abbrev action_of : Option LlmReview → Action
action_of none = no_op
action_of (some r) = r.action

-- `_classify`
abbrev pub classify : ReviewConfig → Option LlmReview → Outcome → Kind
classify cfg review well = classify_review cfg review (action_of review)
classify cfg review refusal = rejected
classify cfg review invalid_output = rejected
classify cfg review truncated = rejected
classify cfg review blocked = rejected
classify cfg review _ = not_reviewed

-- `_store_entry`
abbrev pub store_entry : String → Kind → ℕ → ℕ → Option LlmReview → Reviewer → Reviewer
store_entry key kind ts_ms price review r = record r {
  entries =
      insert key (record { kind = kind; ts_ms = ts_ms; reviewed_price = price; review = review })
        r.entries;
}

abbrev pub begin : Option BlockedReason → String → ℕ → TradeCandidate → Reviewer → Bool × Reviewer
begin none key now c r = (true, record r { in_flight = key ∷ r.in_flight })
begin (some why) key now c r = (false, store_entry key not_reviewed now c.executable_price none r)

-- `run_review` up to the call of the API: whether the call is made, and the state that it leaves
unfoldable pub begin_review :
    ReviewConfig → Bool → TradeCandidate → ℕ → ℕ → Reviewer → Bool × Reviewer
begin_review cfg has_client c prompt_bytes now r =
    let key = market_key c in
    let (why, budget) = blocked_reason cfg.budget now key prompt_bytes r.budget in
    if not has_client || any (str_eq key) r.in_flight
    then (false, r)
    else begin why key now c (record r { budget = budget })

-- `run_review` behind the call, which has returned `result`
unfoldable pub finish_review : ReviewConfig → TradeCandidate → ℕ → CallResult → Reviewer → Reviewer
finish_review cfg c done result r =
    let key = market_key c in
    store_entry key (classify cfg result.review result.outcome) done c.executable_price
      result.review
      (record r {
        in_flight = filter (λ k. not (str_eq key k)) r.in_flight;
        budget = record_call done key result.cost_usd r.budget;
      })
