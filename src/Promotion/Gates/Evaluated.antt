-- ===== src/Promotion/Gates/Evaluated.antt =====
-- Proofs on `evaluate_promotion` of promotion/gates.py.
use claude_route.Base.{◌≤◌, ◌≡◌, refl, String, true, List, [], ◌∷◌, any, arith}
use claude_route.Promotion.Gates.{
  Stage, rank, Evidence, Approval, synthetic, latest, missing_for, all_stages, eligible_from,
  approves, approved_from, evaluate_promotion,
}

latest-synthetic :
    (e : Evidence) (es : List Evidence) (kind version : String)
    → synthetic e ≡ true
    → latest (e ∷ es) kind version ≡ latest es kind version
unfolding latest
latest-synthetic e es kind version h = ground arith

missing_for-synthetic :
    (s : Stage) (e : Evidence) (es : List Evidence) (version : String)
    → synthetic e ≡ true
    → missing_for s (e ∷ es) version ≡ missing_for s es version
unfolding missing_for
missing_for-synthetic Stage.research e es version h = refl
missing_for-synthetic Stage.backtest e es version h =
    rw (latest-synthetic e es "backtest" version h) refl
missing_for-synthetic Stage.out_of_sample e es version h =
    rw (latest-synthetic e es "oos" version h) refl
missing_for-synthetic Stage.paper e es version h =
    rw (latest-synthetic e es "paper_session" version h) refl
missing_for-synthetic Stage.small_live e es version h =
    rw
      (
        latest-synthetic e es "tests_passed" version h,
        latest-synthetic e es "security_passed" version h,
        latest-synthetic e es "kill_switch_drill" version h,
        latest-synthetic e es "reconciliation_drill" version h,
      )
      refl
missing_for-synthetic Stage.live e es version h =
    rw (latest-synthetic e es "small_live_session" version h) refl

eligible_from-synthetic :
    (s : Stage) (ts : List Stage) (e : Evidence) (es : List Evidence) (version : String)
    → synthetic e ≡ true
    → eligible_from s ts (e ∷ es) version ≡ eligible_from s ts es version
unfolding eligible_from
eligible_from-synthetic s [] e es version h = refl
eligible_from-synthetic s (t ∷ ts) e es version h =
    rw (missing_for-synthetic t e es version h, eligible_from-synthetic t ts e es version h) refl

-- Evidence that is synthetic, or does not say where it is from, changes no promotion when it is added
-- in front of the evidence that is there.
pub synthetic_ignored :
    (e : Evidence) (es : List Evidence) (approvals : List Approval) (version hash prefix : String)
    → synthetic e ≡ true
    → evaluate_promotion (e ∷ es) approvals version hash prefix
      ≡ evaluate_promotion es approvals version hash prefix
unfolding evaluate_promotion
synthetic_ignored e es approvals version hash prefix h =
    rw (eligible_from-synthetic Stage.research all_stages e es version h) refl

-- What the stage SMALL_LIVE, or LIVE above it, takes.
pub record IsEarned (es : List Evidence) (approvals : List Approval) (version hash prefix : String)
    : Type 0 where
  pub backtest : missing_for Stage.backtest es version ≡ 0
  pub out_of_sample : missing_for Stage.out_of_sample es version ≡ 0
  pub paper : missing_for Stage.paper es version ≡ 0
  pub drills : missing_for Stage.small_live es version ≡ 0
  pub approved : any (approves Stage.small_live hash prefix version) approvals ≡ true

approved_earned :
    (el : Stage) (approvals : List Approval) (hash prefix version : String)
    → 4 ≤ rank (approved_from Stage.research all_stages el approvals hash prefix version)
    → (4 ≤ rank el) × (any (approves Stage.small_live hash prefix version) approvals ≡ true)
unfolding approved_from
approved_earned el approvals hash prefix version h = ground arith

eligible_earned :
    (es : List Evidence) (version : String)
    → 4 ≤ rank (eligible_from Stage.research all_stages es version).0
    → (missing_for Stage.backtest es version ≡ 0)
      × (missing_for Stage.out_of_sample es version ≡ 0)
      × (missing_for Stage.paper es version ≡ 0)
      × (missing_for Stage.small_live es version ≡ 0)
unfolding eligible_from
eligible_earned es version h = ground arith

-- A strategy that is approved for SMALL_LIVE or more has nothing missing for any stage up to
-- SMALL_LIVE, and an operator's approval of SMALL_LIVE for this very policy and version.
pub evaluate_promotion-IsEarned :
    (es : List Evidence) (approvals : List Approval) (version hash prefix : String)
    → 4 ≤ rank (evaluate_promotion es approvals version hash prefix).approved_stage
    → IsEarned es approvals version hash prefix
unfolding evaluate_promotion
evaluate_promotion-IsEarned es approvals version hash prefix h =
    let (eligible, approved) =
      approved_earned (eligible_from Stage.research all_stages es version).0 approvals hash prefix
        version h in
    let (backtest, oos, paper, drills) = eligible_earned es version eligible in
    record {
      backtest = backtest;
      out_of_sample = oos;
      paper = paper;
      drills = drills;
      approved = approved;
    }
