-- ===== src/Risk/Sizing/Caps.antt =====
-- Proofs on the size that `evaluate_entry` of risk/engine.py computes.
use native.Mathlib.Nat.{
  div-mul-le_self, mul-le-mul_left, le_of_mul-le-mul_right, mul-le-mul_right, mul-pos,
}
use claude_route.Base.{ℕ, ◌+◌, ◌-◌, ◌*◌, ◌/◌, ◌≤◌, ◌<◌, inl, inr, arith, ltb, leb, Bool-cases}
use claude_route.Base.Int.{ℤ}
use claude_route.Domain.Orders.{usd_cent}
use claude_route.Domain.Market.{Fraction}
use claude_route.Risk.Policy.{RiskPolicy}
use claude_route.Risk.Loss.{million}
use claude_route.Risk.Views.{PortfolioView, EntryContext, TradeCandidate, exposure_usd}
use claude_route.Risk.Sizing.{
  existing_cost, multiplier, available_cash, fee_part, price_part, cash_cap, position_cap,
  exposure_cap, whole_cap, least, floor_cents, size_of,
}

multiplier-le : (m : ℤ) → multiplier m ≤ million
multiplier-le m = ground arith

-- Rounding down a share of at most one stays below the fraction.
floor_cents-le : (q : Fraction) (m : ℕ) → m ≤ million → floor_cents q m * q.den ≤ q.num
unfolding floor_cents
floor_cents-le q m h =
    let k = q.num * m / (q.den * (million * usd_cent)) in
    scaled k (div-mul-le_self (q.num * m) (q.den * (million * usd_cent))) (mul-le-mul_left q.num h)
  where
    scaled :
        (k : ℕ)
        → k * (q.den * (million * usd_cent)) ≤ q.num * m
        → q.num * m ≤ q.num * million
        → k * usd_cent * q.den ≤ q.num
    scaled k a b = grind arith

least-le_whole : (n : ℕ) (q : Fraction) → (least n q).num ≤ n * (least n q).den
least-le_whole n q = elim (Bool-cases (leb (n * q.den) q.num)) [
  | inl h ↦ rw h (omega arith)
  | inr h ↦ rw h (ground arith)
]

least-le_fraction : (n : ℕ) (q : Fraction) → (least n q).num * q.den ≤ q.num * (least n q).den
least-le_fraction n q = elim (Bool-cases (leb (n * q.den) q.num)) [
  | inl h ↦ rw h (ground arith)
  | inr h ↦ rw h (omega arith)
]

least-pos : (n : ℕ) (q : Fraction) → 0 < q.den → 0 < (least n q).den
least-pos n q h = ground arith

-- Below the fraction `least n q` is below `n`, and below `q`.
below_whole : (s n : ℕ) (q : Fraction) → 0 < q.den → s * (least n q).den ≤ (least n q).num → s ≤ n
below_whole s n q p h =
    le_of_mul-le-mul_right (omega (arith, h, least-le_whole n q)) (least-pos n q p)

below_fraction :
    (s n : ℕ) (q : Fraction) → 0 < q.den → s * (least n q).den ≤ (least n q).num → s * q.den ≤ q.num
below_fraction s n q p h =
    le_of_mul-le-mul_right (chain (mul-le-mul_right q.den h) (least-le_fraction n q))
      (least-pos n q p)
  where
    chain :
        s * (least n q).den * q.den ≤ (least n q).num * q.den
        → (least n q).num * q.den ≤ q.num * (least n q).den
        → s * q.den * (least n q).den ≤ q.num * (least n q).den
    chain a b = grind arith

-- A size within the caps: that of the candidate, of an order, of the position in its token, of the
-- exposure, and of the cash, with the fee that the size costs at its worst price set aside.
pub record IsWithinCaps (p : RiskPolicy) (c : TradeCandidate) (f : PortfolioView) (fee : Fraction)
    (size : ℕ) : Type 0 where
  pub candidate : size ≤ c.notional_usd
  pub order : size ≤ p.max_order_size_usd
  pub position : size ≤ p.max_position_usd - existing_cost c f
  pub exposure : size ≤ p.max_total_exposure_usd - exposure_usd f
  pub cash :
      size * (price_part c.worst_price fee + fee_part c.worst_price fee)
      ≤ available_cash p f * price_part c.worst_price fee

whole_cap_le :
    (p : RiskPolicy) (c : TradeCandidate) (f : PortfolioView)
    → (whole_cap p c f ≤ c.notional_usd)
      × (whole_cap p c f ≤ p.max_order_size_usd)
      × (whole_cap p c f ≤ position_cap p c f)
      × (whole_cap p c f ≤ p.max_total_exposure_usd - exposure_usd f)
unfolding whole_cap exposure_cap
whole_cap_le p c f = (omega arith, omega arith, omega arith, omega arith)

price_part-pos : (limit : ℕ) (fee : Fraction) → 0 < fee.den → 0 < price_part limit fee
price_part-pos limit fee h = elim (Bool-cases (ltb 0 limit)) [
  | inl l ↦ rw l (mul-pos h (ground arith))
  | inr l ↦ rw l (omega arith)
]

pub size_of-IsWithinCaps :
    (p : RiskPolicy) (c : TradeCandidate) (x : EntryContext) (fee : Fraction)
    → 0 < fee.den
    → IsWithinCaps p c x.portfolio fee (size_of p c x fee)
unfolding size_of
size_of-IsWithinCaps p c x fee h =
    let f = x.portfolio in
    let n = whole_cap p c f in
    let q = cash_cap (available_cash p f) c.worst_price fee in
    let den_pos : 0 < q.den = omega (arith, price_part-pos c.worst_price fee h) in
    let below = floor_cents-le (least n q) _ (multiplier-le x.llm_size_multiplier) in
    let whole = below_whole _ n q den_pos below in
    let (a, b, d, e) = whole_cap_le p c f in
    record {
      candidate = omega (arith, whole, a);
      order = omega (arith, whole, b);
      position = omega (arith, whole, d);
      exposure = omega (arith, whole, e);
      cash = below_fraction _ n q den_pos below;
    }
