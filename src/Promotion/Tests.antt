-- ===== src/Promotion/Tests.antt =====
-- A strategy on its way to live trading.
use claude_route.Base.{String, ◌≤◌, ◌≡◌, refl, true, false, some, List, [], ◌∷◌, arith}
use claude_route.Base.Int.{ℤ, pos}
use claude_route.Base.Dict.{Dict, lookup}
use claude_route.Domain.Types.{TradingMode}
use claude_route.Lifecycle.Machine.{LiveAuthorization}
use claude_route.Promotion.Gates.{
  Stage, rank, Evidence, Approval, PromotionStatus, synthetic, latest, missing_for, eligible_from,
  approved_from, approval_phrase, evaluate_promotion,
}
use claude_route.Promotion.Gates.Evaluated.{
  IsEarned, synthetic_ignored, evaluate_promotion-IsEarned,
}
use claude_route.Promotion.LiveLock.{
  LockInput, LlmMode, lock_checks, evaluate_live_lock, authorization_of,
}
use claude_route.Promotion.LiveLock.Minted.{IsUnlocked, Carries, evaluate_live_lock-IsUnlocked}

abbrev evidence : String → Dict ℤ → Evidence
evidence kind numbers = record {
  kind = kind;
  strategy_version = "v1";
  numbers = numbers;
  flags = ("synthetic", false) ∷ ("passed", true) ∷ [];
  ts_ms = 5;
}

abbrev unmarked : Evidence
unmarked = record {
  kind = "backtest";
  strategy_version = "v1";
  numbers = ("n_trades", pos 900) ∷ [];
  flags = [];
  ts_ms = 6;
}

abbrev recorded : List Evidence
recorded =
    evidence "backtest" (("n_trades", pos 300) ∷ [])
    ∷ evidence "oos" (("n_trades", pos 200) ∷ ("pnl_ci_low", pos 1) ∷ ("brier_skill", pos 1) ∷ [])
    ∷ evidence "paper_session" (
        ("days", pos 20)
        ∷ ("n_trades", pos 200)
        ∷ ("open_incidents", pos 0)
        ∷ ("reconciliation_failures", pos 0)
        ∷ [])
    ∷ evidence "tests_passed" []
    ∷ evidence "security_passed" []
    ∷ evidence "kill_switch_drill" []
    ∷ evidence "reconciliation_drill" []
    ∷ []

abbrev approval : Approval
approval = record {
  stage = some "SMALL_LIVE";
  policy_hash = some "abcdef";
  strategy_version = some "v1";
  phrase = some "APPROVE-STAGE-SMALL_LIVE-v1-abc";
}

is_synthetic : synthetic unmarked ≡ true
unfolding lookup
is_synthetic = refl

synthetic_ignored_example :
    evaluate_promotion (unmarked ∷ recorded) (approval ∷ []) "v1" "abcdef" "abc"
    ≡ evaluate_promotion recorded (approval ∷ []) "v1" "abcdef" "abc"
synthetic_ignored_example =
    synthetic_ignored unmarked recorded (approval ∷ []) "v1" "abcdef" "abc" is_synthetic

abbrev status : PromotionStatus
status = evaluate_promotion recorded (approval ∷ []) "v1" "abcdef" "abc"

reaches : 4 ≤ rank status.approved_stage
unfolding evaluate_promotion eligible_from approved_from missing_for latest lookup approval_phrase
reaches = omega arith

evaluate_promotion-IsEarned_example : IsEarned recorded (approval ∷ []) "v1" "abcdef" "abc"
evaluate_promotion-IsEarned_example =
    evaluate_promotion-IsEarned recorded (approval ∷ []) "v1" "abcdef" "abc" reaches

abbrev input : LockInput
input = record {
  env = record {
    trading_mode = TradingMode.live;
    live_trading_enabled = true;
    live_confirmation = "I-ACCEPT-LIVE-RISK-abc";
  };
  config = record {
    mode = TradingMode.live;
    strategy_enabled = true;
    strategy_version = "v1";
    promotion_stage_required_for_live = Stage.small_live;
    llm_mode = LlmMode.off;
    allow_trading_without_llm = true;
  };
  policy_hash = "abcdef";
  hash_prefix = "abc";
  hard_cap_clamps = [];
  promotion = record {
    eligible_stage = Stage.small_live;
    approved_stage = Stage.small_live;
    strategy_version = "v1";
    policy_hash = "abcdef";
  };
  compliance = true;
  kill_switch_engaged = false;
  reconciliation_ok = true;
  market_data_ok = true;
  credential_names_present = "POLYMARKET_PRIVATE_KEY" ∷ [];
  adapter_available = true;
  now_ms = 9;
}

abbrev authorization : LiveAuthorization
authorization = authorization_of input (lock_checks input)

mints : (evaluate_live_lock input).1 ≡ some authorization
unfolding evaluate_live_lock lock_checks
mints = refl

evaluate_live_lock-IsUnlocked_example : IsUnlocked input × Carries input authorization
evaluate_live_lock-IsUnlocked_example = evaluate_live_lock-IsUnlocked input authorization mints
