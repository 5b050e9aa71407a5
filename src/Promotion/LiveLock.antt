-- ===== src/Promotion/LiveLock.antt =====
-- `evaluate_live_lock` of src/polymarket_bot/promotion/live_lock.py, with the fields of the
-- environment and the configuration that it reads. Whether the live adapter is installed is an
-- argument; the details of a check, texts for readers, are left out.
pub mod Minted
use claude_route.Base.{
  ℕ, String, Bool, true, false, not, ◌&&◌, ◌||◌, Option, none, some, List, [], ◌∷◌, any, all, leb,
  ◌==◌, str_eq, is_empty, map, if◌then◌else◌,
}
use claude_route.Base.Text.{◌<>◌}
use claude_route.Domain.Types.{TradingMode}
use claude_route.Lifecycle.Machine.{LiveAuthorization}
use claude_route.Promotion.Gates.{Stage, rank, stage_name, PromotionStatus}

-- The fields of `EnvSettings`.
pub record EnvSettings : Type 0 where
  pub trading_mode : TradingMode
  pub live_trading_enabled : Bool
  pub live_confirmation : String

pub data LlmMode : Type 0 where
  off advisory required : LlmMode

-- The fields of `AppConfig`.
pub record AppConfig : Type 0 where
  pub mode : TradingMode
  pub strategy_enabled : Bool
  pub strategy_version : String
  pub promotion_stage_required_for_live : Stage
  pub llm_mode : LlmMode
  pub allow_trading_without_llm : Bool

-- What the lock is asked with. `hash_prefix` is `policy_hash[:16]`.
pub record LockInput : Type 0 where
  pub env : EnvSettings
  pub config : AppConfig
  pub policy_hash : String
  pub hash_prefix : String
  pub hard_cap_clamps : List String
  pub promotion : PromotionStatus
  pub compliance : Bool
  pub kill_switch_engaged : Bool
  pub reconciliation_ok : Bool
  pub market_data_ok : Bool
  pub credential_names_present : List String
  pub adapter_available : Bool
  pub now_ms : ℕ

pub record LockCheck : Type 0 where
  pub name : String
  pub passed : Bool

abbrev pub check : String → Bool → LockCheck
check name passed = record { name = name; passed = passed }

abbrev pub is_live_mode : TradingMode → Bool
is_live_mode TradingMode.live = true
is_live_mode _ = false

abbrev pub is_off : LlmMode → Bool
is_off LlmMode.off = true
is_off _ = false

-- `expected_live_confirmation`
abbrev pub expected_live_confirmation : String → String
expected_live_confirmation prefix = "I-ACCEPT-LIVE-RISK-" <> prefix

abbrev pub live_required_secret : String
live_required_secret = "POLYMARKET_PRIVATE_KEY"

unfoldable pub lock_checks : LockInput → List LockCheck
lock_checks i =
    check "env TRADING_MODE=live" (is_live_mode i.env.trading_mode)
    ∷ check "env LIVE_TRADING_ENABLED=true" i.env.live_trading_enabled
    ∷ check "env LIVE_CONFIRMATION matches current policy hash" (
        not (str_eq i.env.live_confirmation "")
        && str_eq i.env.live_confirmation (expected_live_confirmation i.hash_prefix))
    ∷ check "config mode=live" (is_live_mode i.config.mode)
    ∷ check "risk policy within hard caps (no clamping)" (is_empty i.hard_cap_clamps)
    ∷ check "strategy enabled" i.config.strategy_enabled
    ∷ check ("promotion approved >= " <> stage_name i.config.promotion_stage_required_for_live)
        (leb (rank i.config.promotion_stage_required_for_live) (rank i.promotion.approved_stage))
    ∷ check "promotion bound to current policy hash" (str_eq i.promotion.policy_hash i.policy_hash)
    ∷ check "compliance / jurisdiction" i.compliance
    ∷ check "kill switch not engaged" (not i.kill_switch_engaged)
    ∷ check "account reconciled at startup" i.reconciliation_ok
    ∷ check "market data healthy" i.market_data_ok
    ∷ check "live credentials present (names only)"
        (any (str_eq live_required_secret) i.credential_names_present)
    ∷ check "live adapter installed (extra 'live')" i.adapter_available
    ∷ check "LLM policy coherent for live"
        (is_off i.config.llm_mode || not i.config.allow_trading_without_llm)
    ∷ []

abbrev pub authorization_of : LockInput → List LockCheck → LiveAuthorization
authorization_of i checks = record {
  policy_hash = i.policy_hash;
  strategy_version = i.config.strategy_version;
  issued_ms = i.now_ms;
  checks = map (λ c. c.name) checks;
}

unfoldable pub evaluate_live_lock : LockInput → List LockCheck × Option LiveAuthorization
evaluate_live_lock i =
    let checks = lock_checks i in
    (checks, if all (λ c. c.passed) checks then some (authorization_of i checks) else none)
