-- ===== src/Risk/Policy/Clamped.antt =====
-- Proofs on `clamp_to_hard_caps` of config/risk_policy.py.
use claude_route.Base.{
  ℕ, ◌*◌, ◌≤◌, ◌<◌, ◌≡◌, sym, subst, Bool, true, false, ltb, ok, arith, if◌then◌else◌,
}
use claude_route.Risk.Policy.{
  RiskPolicy, one_usd, apply_hard_caps, apply_small_live_caps, clamp_to_hard_caps,
}
use claude_route.Risk.Policy.NoLooser.{
  IsNoLooser, lowered, apply_hard_caps-IsNoLooser, apply_small_live_caps-IsNoLooser,
}

-- The ceilings and floors of `HARD_CAPS`, all 22.
pub record IsCapped (p : RiskPolicy) : Type 0 where
  pub position : p.max_position_usd ≤ 100 * one_usd
  pub exposure : p.max_total_exposure_usd ≤ 300 * one_usd
  pub order_size : p.max_order_size_usd ≤ 100 * one_usd
  pub daily_loss : p.max_daily_loss_usd ≤ 100 * one_usd
  pub daily_loss_pct : p.max_daily_loss_pct ≤ 200_000
  pub drawdown : p.max_drawdown_pct ≤ 300_000
  pub open_positions : p.max_open_positions ≤ 5
  pub per_minute : p.max_trades_per_minute ≤ 4
  pub per_hour : p.max_trades_per_hour ≤ 40
  pub per_day : p.max_trades_per_day ≤ 300
  pub entry_price : p.max_entry_price ≤ 9_700
  pub edge : 10_000 ≤ p.min_conservative_edge
  pub time_to_expiry : 20 ≤ p.min_time_to_expiry_s
  pub cooldown : 5 ≤ p.cooldown_same_market_s
  pub spread : p.max_spread ≤ 1_000
  pub slippage : p.max_slippage ≤ 50_000
  pub data_age : p.max_data_age_ms ≤ 5_000
  pub reference_age : p.max_reference_age_ms ≤ 10_000
  pub uncertainty : p.max_uncertainty ≤ 400_000
  pub clock_drift : p.max_clock_drift_ms ≤ 2_000
  pub liquidity : 5 * one_usd ≤ p.min_liquidity_usd
  pub min_entry : 300 ≤ p.min_entry_price

pub record IsSmallLive (p : RiskPolicy) : Type 0 where
  pub position : p.max_position_usd ≤ 10 * one_usd
  pub exposure : p.max_total_exposure_usd ≤ 30 * one_usd
  pub order_size : p.max_order_size_usd ≤ 10 * one_usd
  pub daily_loss : p.max_daily_loss_usd ≤ 20 * one_usd
  pub open_positions : p.max_open_positions ≤ 2
  pub per_hour : p.max_trades_per_hour ≤ 12

at_most-le : (cap value : ℕ) → (if ltb cap value then cap else value) ≤ cap
at_most-le cap value = ground arith

at_least-ge : (cap value : ℕ) → cap ≤ (if ltb value cap then cap else value)
at_least-ge cap value = ground arith

apply_hard_caps-IsCapped : (p : RiskPolicy) → IsCapped (apply_hard_caps p)
unfolding apply_hard_caps
apply_hard_caps-IsCapped p = record {
  position = at_most-le _ p.max_position_usd;
  exposure = at_most-le _ p.max_total_exposure_usd;
  order_size = at_most-le _ p.max_order_size_usd;
  daily_loss = at_most-le _ p.max_daily_loss_usd;
  daily_loss_pct = at_most-le _ p.max_daily_loss_pct;
  drawdown = at_most-le _ p.max_drawdown_pct;
  open_positions = at_most-le _ p.max_open_positions;
  per_minute = at_most-le _ p.max_trades_per_minute;
  per_hour = at_most-le _ p.max_trades_per_hour;
  per_day = at_most-le _ p.max_trades_per_day;
  entry_price = at_most-le _ p.max_entry_price;
  edge = at_least-ge _ p.min_conservative_edge;
  time_to_expiry = at_least-ge _ p.min_time_to_expiry_s;
  cooldown = at_least-ge _ p.cooldown_same_market_s;
  spread = at_most-le _ p.max_spread;
  slippage = at_most-le _ p.max_slippage;
  data_age = at_most-le _ p.max_data_age_ms;
  reference_age = at_most-le _ p.max_reference_age_ms;
  uncertainty = at_most-le _ p.max_uncertainty;
  clock_drift = at_most-le _ p.max_clock_drift_ms;
  liquidity = at_least-ge _ p.min_liquidity_usd;
  min_entry = at_least-ge _ p.min_entry_price;
}

apply_small_live_caps-IsCapped : (p : RiskPolicy) → IsCapped p → IsCapped (apply_small_live_caps p)
unfolding apply_small_live_caps
apply_small_live_caps-IsCapped p h = record {
  position = lowered _ p.max_position_usd _ h.position;
  exposure = lowered _ p.max_total_exposure_usd _ h.exposure;
  order_size = lowered _ p.max_order_size_usd _ h.order_size;
  daily_loss = lowered _ p.max_daily_loss_usd _ h.daily_loss;
  daily_loss_pct = h.daily_loss_pct;
  drawdown = h.drawdown;
  open_positions = lowered _ p.max_open_positions _ h.open_positions;
  per_minute = h.per_minute;
  per_hour = lowered _ p.max_trades_per_hour _ h.per_hour;
  per_day = h.per_day;
  entry_price = h.entry_price;
  edge = h.edge;
  time_to_expiry = h.time_to_expiry;
  cooldown = h.cooldown;
  spread = h.spread;
  slippage = h.slippage;
  data_age = h.data_age;
  reference_age = h.reference_age;
  uncertainty = h.uncertainty;
  clock_drift = h.clock_drift;
  liquidity = h.liquidity;
  min_entry = h.min_entry;
}

apply_small_live_caps-IsSmallLive : (p : RiskPolicy) → IsSmallLive (apply_small_live_caps p)
unfolding apply_small_live_caps
apply_small_live_caps-IsSmallLive p = record {
  position = at_most-le _ p.max_position_usd;
  exposure = at_most-le _ p.max_total_exposure_usd;
  order_size = at_most-le _ p.max_order_size_usd;
  daily_loss = at_most-le _ p.max_daily_loss_usd;
  open_positions = at_most-le _ p.max_open_positions;
  per_hour = at_most-le _ p.max_trades_per_hour;
}

-- The policy that `clamp_to_hard_caps` returns.
abbrev effective : RiskPolicy → Bool → RiskPolicy
effective p small_live =
    if small_live then apply_small_live_caps (apply_hard_caps p) else apply_hard_caps p

clamp_effective :
    (p q : RiskPolicy) (small_live : Bool) (n : ℕ)
    → clamp_to_hard_caps p small_live ≡ ok (q, n)
    → (q ≡ effective p small_live) × (q.min_entry_price < q.max_entry_price)
unfolding clamp_to_hard_caps
clamp_effective p q small_live n h = ground arith

effective-IsCapped : (p : RiskPolicy) (small_live : Bool) → IsCapped (effective p small_live)
effective-IsCapped p true =
    apply_small_live_caps-IsCapped (apply_hard_caps p) (apply_hard_caps-IsCapped p)
effective-IsCapped p false = apply_hard_caps-IsCapped p

effective-IsNoLooser : (p : RiskPolicy) (small_live : Bool) → IsNoLooser p (effective p small_live)
effective-IsNoLooser p true =
    apply_small_live_caps-IsNoLooser p (apply_hard_caps p) (apply_hard_caps-IsNoLooser p)
effective-IsNoLooser p false = apply_hard_caps-IsNoLooser p

-- Whatever is configured, a policy that is accepted is within all 22 hard caps, and nowhere looser
-- than the one configured: no ceiling is raised, no floor lowered, and the fields without a cap are
-- as they were. Its band of entry prices is not empty.
pub clamp_to_hard_caps-IsCapped :
    (p q : RiskPolicy) (small_live : Bool) (n : ℕ)
    → clamp_to_hard_caps p small_live ≡ ok (q, n)
    → IsCapped q × IsNoLooser p q × (q.min_entry_price < q.max_entry_price)
clamp_to_hard_caps-IsCapped p q small_live n h =
    let (same, band) = clamp_effective p q small_live n h in
    (
      subst IsCapped (sym same) (effective-IsCapped p small_live),
      subst (IsNoLooser p) (sym same) (effective-IsNoLooser p small_live),
      band,
    )

-- A policy that is accepted for the stage SMALL_LIVE is within the caps of that stage.
pub clamp_to_hard_caps-IsSmallLive :
    (p q : RiskPolicy) (n : ℕ) → clamp_to_hard_caps p true ≡ ok (q, n) → IsSmallLive q
clamp_to_hard_caps-IsSmallLive p q n h =
    rw ((clamp_effective p q true n h).0) (apply_small_live_caps-IsSmallLive (apply_hard_caps p))
