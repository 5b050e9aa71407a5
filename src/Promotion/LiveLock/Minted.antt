-- ===== src/Promotion/LiveLock/Minted.antt =====
-- Proofs on `evaluate_live_lock` of promotion/live_lock.py.
use claude_route.Base.{
  ℕ, ◌≤◌, ◌≡◌, ◌⊎◌, refl, String, Bool, true, false, not, ◌&&◌, ◌||◌, any, Option, none, some, all,
  all-All, All, subst, arith, leb, is_empty, str_eq, eq_iff, if◌then◌else◌,
}
use claude_route.Domain.Types.{TradingMode}
use claude_route.Lifecycle.Machine.{LiveAuthorization}
use claude_route.Promotion.Gates.{rank}
use claude_route.Promotion.LiveLock.{
  LockInput, LlmMode, is_live_mode, is_off, expected_live_confirmation, live_required_secret,
  lock_checks, evaluate_live_lock, authorization_of,
}

-- What each check of the lock asks for.
pub record IsUnlocked (i : LockInput) : Type 0 where
  pub env_live : i.env.trading_mode ≡ TradingMode.live
  pub env_enabled : i.env.live_trading_enabled ≡ true
  pub confirmed : i.env.live_confirmation ≡ expected_live_confirmation i.hash_prefix
  pub config_live : i.config.mode ≡ TradingMode.live
  pub no_clamp : is_empty i.hard_cap_clamps ≡ true
  pub strategy : i.config.strategy_enabled ≡ true
  pub promoted : rank i.config.promotion_stage_required_for_live ≤ rank i.promotion.approved_stage
  pub same_policy : i.promotion.policy_hash ≡ i.policy_hash
  pub compliant : i.compliance ≡ true
  pub no_kill_switch : i.kill_switch_engaged ≡ false
  pub reconciled : i.reconciliation_ok ≡ true
  pub market_data : i.market_data_ok ≡ true
  pub credentials : any (str_eq live_required_secret) i.credential_names_present ≡ true
  pub adapter : i.adapter_available ≡ true
  pub llm : (i.config.llm_mode ≡ LlmMode.off) ⊎ (i.config.allow_trading_without_llm ≡ false)

live_mode : (m : TradingMode) → is_live_mode m ≡ true → m ≡ TradingMode.live
live_mode m h = ground arith

llm_off : (m : LlmMode) → is_off m ≡ true → m ≡ LlmMode.off
llm_off m h = ground arith

not-true : (b : Bool) → not b ≡ true → b ≡ false
not-true b h = ground arith

coherent : (m : LlmMode) (b : Bool) → (is_off m || not b) ≡ true → (m ≡ LlmMode.off) ⊎ (b ≡ false)
coherent m b h = ground (arith, llm_off m)

ranked : (a b : ℕ) → leb a b ≡ true → a ≤ b
ranked a b h = ground arith

same_text : (s t : String) → str_eq s t ≡ true → s ≡ t
same_text s t h = ground (arith, eq_iff s t)

confirms : (s t : String) → (not (str_eq s "") && str_eq s t) ≡ true → s ≡ t
confirms s t h = ground (arith, eq_iff s t)

All-IsUnlocked : (i : LockInput) → All (λ c. c.passed ≡ true) (lock_checks i) → IsUnlocked i
unfolding lock_checks
All-IsUnlocked i h = record {
  env_live = live_mode i.env.trading_mode h.0;
  env_enabled = h.1.0;
  confirmed = confirms i.env.live_confirmation (expected_live_confirmation i.hash_prefix) h.1.1.0;
  config_live = live_mode i.config.mode h.1.1.1.0;
  no_clamp = h.1.1.1.1.0;
  strategy = h.1.1.1.1.1.0;
  promoted = ranked _ _ h.1.1.1.1.1.1.0;
  same_policy = same_text _ _ h.1.1.1.1.1.1.1.0;
  compliant = h.1.1.1.1.1.1.1.1.0;
  no_kill_switch = not-true i.kill_switch_engaged h.1.1.1.1.1.1.1.1.1.0;
  reconciled = h.1.1.1.1.1.1.1.1.1.1.0;
  market_data = h.1.1.1.1.1.1.1.1.1.1.1.0;
  credentials = h.1.1.1.1.1.1.1.1.1.1.1.1.0;
  adapter = h.1.1.1.1.1.1.1.1.1.1.1.1.1.0;
  llm =
      coherent i.config.llm_mode i.config.allow_trading_without_llm h.1.1.1.1.1.1.1.1.1.1.1.1.1.1.0;
}

checks-IsUnlocked : (i : LockInput) → all (λ c. c.passed) (lock_checks i) ≡ true → IsUnlocked i
checks-IsUnlocked i h = All-IsUnlocked i (all-All (λ c. c.passed) (lock_checks i) h)

-- What an authorization for an input carries.
abbrev pub Carries : LockInput → LiveAuthorization → Type 0
Carries i a =
    (a.policy_hash ≡ i.policy_hash)
    × (a.strategy_version ≡ i.config.strategy_version)
    × (a.issued_ms ≡ i.now_ms)

some_inj : {a b : LiveAuthorization} → ◌≡◌ {A = Option LiveAuthorization} (some a) (some b) → a ≡ b
some_inj k = cc

minted :
    (i : LockInput) (b : Bool) (a : LiveAuthorization)
    → (all (λ c. c.passed) (lock_checks i) ≡ b)
    → (if b then some (authorization_of i (lock_checks i)) else none) ≡ some a
    → IsUnlocked i × Carries i a
minted i true a p e = (checks-IsUnlocked i p, subst (Carries i) (some_inj e) (refl, refl, refl))
minted i false a p e = cc

-- The lock gives an authorization only where every check holds, and then for the policy and the
-- strategy that were checked, at the time of the check.
pub evaluate_live_lock-IsUnlocked :
    (i : LockInput) (a : LiveAuthorization)
    → (evaluate_live_lock i).1 ≡ some a
    → IsUnlocked i × Carries i a
unfolding evaluate_live_lock
evaluate_live_lock-IsUnlocked i a h = minted i (all (λ c. c.passed) (lock_checks i)) a refl h
