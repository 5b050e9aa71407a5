-- ===== src/Promotion/Gates.antt =====
-- src/polymarket_bot/promotion/gates.py. A body holds numbers and flags under their keys; a float
-- counts units of 2^-1074. What is missing for a stage is kept as the number of its entries.
pub mod Evaluated
use Prim.Native.Nat.{suc}
use claude_route.Base.{
  ℕ, ◌+◌, String, Bool, true, false, not, ◌&&◌, ◌||◌, Option, none, some, List, [], ◌∷◌, any,
  filter, ltb, leb, ◌==◌, str_eq, value_or, is_empty, if◌then◌else◌,
}
use claude_route.Base.Text.{◌<>◌}
use claude_route.Base.Int.{ℤ, pos, negsuc, leb_ℤ, ltb_ℤ}
use claude_route.Base.Dict.{Dict, lookup}

pub data Stage : Type 0 where
  research backtest out_of_sample paper small_live live : Stage

-- The value of the `IntEnum`.
abbrev pub rank : Stage → ℕ
rank Stage.research = 0
rank Stage.backtest = 1
rank Stage.out_of_sample = 2
rank Stage.paper = 3
rank Stage.small_live = 4
rank Stage.live = 5

pub record Evidence : Type 0 where
  pub kind : String
  pub strategy_version : String
  pub numbers : Dict ℤ
  pub flags : Dict Bool
  pub ts_ms : ℕ

-- `Evidence.synthetic`: what does not say where it is from counts as synthetic.
abbrev pub synthetic : Evidence → Bool
synthetic e = value_or (lookup "synthetic" e.flags) true

-- A recorded approval; a missing key is no match.
pub record Approval : Type 0 where
  pub stage : Option String
  pub policy_hash : Option String
  pub strategy_version : Option String
  pub phrase : Option String

abbrev pub is_recorded : String → String → Evidence → Bool
is_recorded kind version e =
    str_eq e.kind kind && str_eq e.strategy_version version && not (synthetic e)

-- `max` keeps the first of equals.
abbrev pub later : Evidence → Option Evidence → Evidence
later e none = e
later e (some f) = if ltb e.ts_ms f.ts_ms then f else e

-- `_latest`
unfoldable pub latest : List Evidence → String → String → Option Evidence
latest [] kind version = none
latest (e ∷ es) kind version =
    let rest = latest es kind version in
    if is_recorded kind version e then some (later e rest) else rest

-- `e.body.get(key, default)`
abbrev pub number : String → ℤ → Evidence → ℤ
number key default e = value_or (lookup key e.numbers) default

abbrev pub missing_if : Bool → ℕ
missing_if b = if b then 1 else 0

-- The float -1.0: 2^1074 units below zero; the tests only need that it is negative.
abbrev minus_one : ℤ
minus_one = negsuc 0

abbrev backtest_missing : Option Evidence → ℕ
backtest_missing none = 1
backtest_missing (some e) = missing_if (ltb_ℤ (number "n_trades" (pos 0) e) (pos 200))

abbrev oos_missing : Option Evidence → ℕ
oos_missing none = 1
oos_missing (some e) =
    missing_if (ltb_ℤ (number "n_trades" (pos 0) e) (pos 150))
    + missing_if (leb_ℤ (number "pnl_ci_low" minus_one e) (pos 0))
    + missing_if (leb_ℤ (number "brier_skill" minus_one e) (pos 0))

abbrev paper_missing : Option Evidence → ℕ
paper_missing none = 1
paper_missing (some e) =
    missing_if (ltb_ℤ (number "days" (pos 0) e) (pos 14))
    + missing_if (ltb_ℤ (number "n_trades" (pos 0) e) (pos 150))
    + missing_if (ltb_ℤ (pos 0) (number "open_incidents" (pos 1) e))
    + missing_if (ltb_ℤ (pos 0) (number "reconciliation_failures" (pos 1) e))

abbrev drill_missing : Option Evidence → ℕ
drill_missing none = 1
drill_missing (some e) = missing_if (not (value_or (lookup "passed" e.flags) false))

abbrev live_missing : Option Evidence → ℕ
live_missing none = 1
live_missing (some e) =
    missing_if (ltb_ℤ (number "days" (pos 0) e) (pos 30))
    + missing_if (ltb_ℤ (number "n_trades" (pos 0) e) (pos 200))

-- `len(_missing_for(...))`
unfoldable pub missing_for : Stage → List Evidence → String → ℕ
missing_for Stage.research es version = 0
missing_for Stage.backtest es version = backtest_missing (latest es "backtest" version)
missing_for Stage.out_of_sample es version = oos_missing (latest es "oos" version)
missing_for Stage.paper es version = paper_missing (latest es "paper_session" version)
missing_for Stage.small_live es version =
    drill_missing (latest es "tests_passed" version)
    + drill_missing (latest es "security_passed" version)
    + drill_missing (latest es "kill_switch_drill" version)
    + drill_missing (latest es "reconciliation_drill" version)
missing_for Stage.live es version = live_missing (latest es "small_live_session" version)

abbrev pub all_stages : List Stage
all_stages = Stage.backtest ∷ Stage.out_of_sample ∷ Stage.paper ∷ Stage.small_live ∷ Stage.live ∷ []

-- The first loop: the last stage before one for which something is missing, and how much is.
unfoldable pub eligible_from : Stage → List Stage → List Evidence → String → Stage × ℕ
eligible_from s [] es version = (s, 0)
eligible_from s (t ∷ ts) es version =
    let rest = eligible_from t ts es version in
    let missing = missing_for t es version in if missing == 0 then rest else (s, missing)

abbrev pub needs_approval : Stage → Bool
needs_approval Stage.small_live = true
needs_approval Stage.live = true
needs_approval _ = false

abbrev pub is_text : Option String → String → Bool
is_text none s = false
is_text (some t) s = str_eq t s

abbrev pub stage_name : Stage → String
stage_name Stage.research = "RESEARCH"
stage_name Stage.backtest = "BACKTEST"
stage_name Stage.out_of_sample = "OUT_OF_SAMPLE"
stage_name Stage.paper = "PAPER"
stage_name Stage.small_live = "SMALL_LIVE"
stage_name Stage.live = "LIVE"

-- `prefix` is `policy_hash[:16]`.
unfoldable pub approval_phrase : Stage → String → String → String
approval_phrase stage prefix version =
    "APPROVE-STAGE-" <> stage_name stage <> "-" <> version <> "-" <> prefix

abbrev pub approves : Stage → String → String → String → Approval → Bool
approves stage hash prefix version a =
    is_text a.stage (stage_name stage)
    && is_text a.policy_hash hash
    && is_text a.strategy_version version
    && is_text a.phrase (approval_phrase stage prefix version)

-- The second loop, up to the eligible stage.
unfoldable pub approved_from :
    Stage → List Stage → Stage → List Approval → String → String → String → Stage
approved_from s [] eligible approvals hash prefix version = s
approved_from s (t ∷ ts) eligible approvals hash prefix version =
    let rest = approved_from t ts eligible approvals hash prefix version in
    if ltb (rank eligible) (rank t)
    then s
    else if needs_approval t && not (any (approves t hash prefix version) approvals)
    then s
    else rest

pub record PromotionStatus : Type 0 where
  pub eligible_stage : Stage
  pub approved_stage : Stage
  pub strategy_version : String
  pub policy_hash : String

-- `evaluate_promotion`; `missing_for_next`, a text for readers, is left out.
unfoldable pub evaluate_promotion :
    List Evidence → List Approval → String → String → String → PromotionStatus
evaluate_promotion es approvals version hash prefix =
    let eligible = (eligible_from Stage.research all_stages es version).0 in
    record {
      eligible_stage = eligible;
      approved_stage =
          approved_from Stage.research all_stages eligible approvals hash prefix version;
      strategy_version = version;
      policy_hash = hash;
    }
