-- ===== src/Exits/Priced.antt =====
-- What an exit signal of src/polymarket_bot/exits/engine.py guarantees.
use native.Mathlib.Nat.{mul-div_left, mul-pos, mul-le-mul_right}
use claude_route.Base.{
  ℕ, ◌+◌, ◌-◌, ◌*◌, ◌/◌, ◌≤◌, ◌<◌, ◌≡◌, Bool, true, not, ◌&&◌, ◌||◌, inl, inr, ltb, leb, leb→le,
  if_keeps, if_cases, ltb→lt, arith, Bool-cases,
}
use claude_route.Domain.Types.{BotState, same_state}
use claude_route.Domain.Market.{FeeSchedule}
use claude_route.Risk.Ticks.{ceil_to_tick, ceil_to_tick_bounds}
use claude_route.Exits.{
  HeldPosition, ExitPolicyConfig, Estimate, ExitReason, Rule, price_scale, millionth, nothing,
  holds, sells, edge_negative, converged, take_profit, not_holding, probability_fee, bid_fee,
  at_least, ceil_price, floor_price, value_floor, risk_floor, state_rule, value_rule, time_rule,
  or_rule, rule, reached, earliest,
}

-- The lowest price of a rule of value, with the tolerance, covers a value and the fee that a sale at
-- that value would pay. The fee of a sale at the price itself can be larger.
abbrev pub Covers : ExitPolicyConfig → FeeSchedule → Estimate → ExitReason → ℕ → Type 0
Covers cfg fees e edge_negative price =
    e.fair * millionth + probability_fee fees e.fair
    ≤ price * price_scale + cfg.convergence_tolerance
Covers cfg fees e converged price =
    e.fair * millionth + probability_fee fees e.fair
    ≤ price * price_scale + cfg.convergence_tolerance
Covers cfg fees e not_holding price =
    e.fair * millionth + probability_fee fees e.fair
    ≤ price * price_scale + cfg.convergence_tolerance
Covers cfg fees e take_profit price =
    e.lower * millionth + probability_fee fees e.lower ≤ price * price_scale
Covers cfg fees e _ price = Unit

-- What a sale at the best bid brings, its own fee taken off, where a rule of value sells.
abbrev pub Nets : ExitPolicyConfig → FeeSchedule → HeldPosition → Estimate → ℕ → ExitReason → Type 0
Nets cfg fees p e bid edge_negative = e.upper * millionth + bid_fee fees bid < bid * price_scale
Nets cfg fees p e bid converged =
    e.fair * millionth + bid_fee fees bid ≤ bid * price_scale + cfg.convergence_tolerance
Nets cfg fees p e bid take_profit =
    (p.avg_entry_price + cfg.take_profit_per_share + bid_fee fees bid ≤ bid * price_scale)
    × (e.lower * millionth + bid_fee fees bid ≤ bid * price_scale)
Nets cfg fees p e bid not_holding = e.lower * millionth + bid_fee fees bid ≤ bid * price_scale
Nets cfg fees p e bid _ = Unit

-- A multiple of the tick in small units is a multiple of it in price units.
ceil_scaled :
    (amount tick scale : ℕ)
    → 0 < tick
    → 0 < scale
    → amount ≤ ceil_to_tick amount (tick * scale) / scale * scale
unfolding ceil_to_tick
ceil_scaled amount tick scale h k =
    let n = (amount + (tick * scale - 1)) / (tick * scale) in
    let exact = mul-div_left (n * tick) k in
    let same : n * (tick * scale) ≡ n * tick * scale = omega arith in
    rw (same, exact) (rw same at (ceil_to_tick_bounds amount (tick * scale) (mul-pos h k)).0)

at_least_bounds :
    (lowest x amount scale : ℕ)
    → amount ≤ x * scale
    → (lowest ≤ at_least lowest x) × (amount ≤ at_least lowest x * scale)
at_least_bounds lowest x amount scale h = elim (Bool-cases (leb lowest x)) [
  | inl e ↦ rw e (leb→le lowest x e, h)
  | inr e ↦ rw e (omega arith, more lowest x amount scale (ground arith) h)
]
  where
    more : (l y a s : ℕ) → y ≤ l → a ≤ y * s → a ≤ l * s
    more l y a s g k = omega (arith, mul-le-mul_right s g, k)

ceil_price_bounds :
    (cfg : ExitPolicyConfig) (tick amount : ℕ)
    → 0 < tick
    → (cfg.min_exit_price ≤ ceil_price cfg tick amount)
      × (amount ≤ ceil_price cfg tick amount * price_scale)
unfolding ceil_price
ceil_price_bounds cfg tick amount h =
    at_least_bounds cfg.min_exit_price (ceil_to_tick amount (tick * price_scale) / price_scale)
      amount price_scale (ceil_scaled amount tick price_scale h (omega arith))

floor_price_bound :
    (cfg : ExitPolicyConfig) (tick amount : ℕ) → cfg.min_exit_price ≤ floor_price cfg tick amount
unfolding floor_price
floor_price_bound cfg tick amount = ground arith

-- What holds of a rule that sells.
abbrev pub IsCovered : ExitPolicyConfig → FeeSchedule → HeldPosition → Estimate → ℕ → Rule → Type 0
IsCovered cfg fees p e bid nothing = Unit
IsCovered cfg fees p e bid (holds why) = Unit
IsCovered cfg fees p e bid (sells why price urgent) =
    (cfg.min_exit_price ≤ price) × Covers cfg fees e why price × Nets cfg fees p e bid why

and_parts : (a b : Bool) → (a && b) ≡ true → (a ≡ true) × (b ≡ true)
and_parts a b h = ground arith

module _ (cfg : ExitPolicyConfig) (fees : FeeSchedule) (tick : ℕ) (p : HeldPosition) (e : Estimate)
    (bid : ℕ) (h : 0 < tick) where
  value_floor_covers :
      (cfg.min_exit_price ≤ value_floor cfg fees tick e)
      × (e.fair * millionth + probability_fee fees e.fair
          ≤ value_floor cfg fees tick e * price_scale + cfg.convergence_tolerance)
  value_floor_covers =
      let amount = e.fair * millionth + probability_fee fees e.fair in
      let (low, cover) = ceil_price_bounds cfg tick (amount - cfg.convergence_tolerance) h in
      (low, omega (arith, cover))

  pub risk_floor_bound : cfg.min_exit_price ≤ risk_floor cfg tick e
  risk_floor_bound =
      floor_price_bound cfg tick
        (at_least (cfg.min_exit_price * price_scale) (e.lower * millionth - cfg.risk_exit_discount))

  abbrev Good : Rule → Type 0
  Good = IsCovered cfg fees p e bid

  state_rule-Good :
      (state : BotState) (kill : Bool) → Good (state_rule cfg (risk_floor cfg tick e) state kill)
  state_rule-Good state kill =
      if_keeps Good (kill || same_state state BotState.kill_switch)
        (if_keeps Good cfg.on_kill_switch_exit (risk_floor_bound, tt, tt) tt)
        (if_keeps Good (same_state state BotState.halted)
          (if_keeps Good cfg.on_halt_exit (risk_floor_bound, tt, tt) tt) tt)

  value_rule-Good : Good (value_rule cfg fees tick p e bid)
  unfolding value_rule
  value_rule-Good =
      let gross = bid * price_scale in
      let fee = bid_fee fees bid in
      let (floor, covers) = value_floor_covers in
      let gain = leb (p.avg_entry_price + cfg.take_profit_per_share + fee) gross in
      let worth = leb (e.lower * millionth + fee) gross in
      if_cases Good (ltb (e.upper * millionth + fee) gross)
        (λ above. (floor, covers, ltb→lt _ _ above))
        (λ _.
          if_cases Good (leb (e.fair * millionth + fee) (gross + cfg.convergence_tolerance))
            (λ near. (floor, covers, leb→le _ _ near))
            (λ _.
              if_cases Good (gain && worth)
                (λ both.
                  let (profits, above) = and_parts gain worth both in
                  let (low, cover) =
                    ceil_price_bounds cfg tick (e.lower * millionth + probability_fee fees e.lower)
                      h in
                  (low, cover, (leb→le _ _ profits, leb→le _ _ above)))
                (λ _. tt)))

  time_rule-Good : (now : ℕ) → Good (time_rule cfg fees tick p e bid now)
  unfolding time_rule
  time_rule-Good now =
      let worth = leb (e.lower * millionth + bid_fee fees bid) (bid * price_scale) in
      let (floor, covers) = value_floor_covers in
      if_keeps Good
        (reached (now - p.opened_ms) (earliest cfg.max_holding_time_ms p.max_holding_ms))
        (risk_floor_bound, tt, tt)
        (if_keeps Good (ltb (e.upper * millionth + cfg.invalidation_margin) p.avg_entry_price)
          (if_keeps Good cfg.invalidation_exit_always (risk_floor_bound, tt, tt) tt)
          (if_cases Good (not cfg.hold_to_resolution && worth)
            (λ both.
              (floor, covers, leb→le _ _ ((and_parts (not cfg.hold_to_resolution) worth both).1)))
            (λ _. tt)))

  or_rule-Good : (r s : Rule) → Good r → Good s → Good (or_rule r s)
  or_rule-Good nothing s g k = k
  or_rule-Good (holds why) s g k = g
  or_rule-Good (sells why price urgent) s g k = g

  pub rule-Good :
      (state : BotState) (kill : Bool) (now : ℕ) → Good (rule cfg fees tick p e state kill bid now)
  unfolding rule
  rule-Good state kill now =
      or_rule-Good (state_rule cfg (risk_floor cfg tick e) state kill)
        (or_rule (value_rule cfg fees tick p e bid) (time_rule cfg fees tick p e bid now))
        (state_rule-Good state kill)
        (or_rule-Good (value_rule cfg fees tick p e bid) (time_rule cfg fees tick p e bid now)
          value_rule-Good (time_rule-Good now))
