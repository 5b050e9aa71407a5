-- ===== src/Risk/Ticks.antt =====
-- Rounding of prices to the tick (src/polymarket_bot/risk/engine.py). A price is not negative, so
-- its floor is that of the division, and `ceil_to_tick`, the negated floor of the negation, is the
-- least multiple that is not below the price.
use native.Mathlib.Nat.{div-add-mod, mul-mod_left}
use claude_route.Base.{
  ℕ, ◌+◌, ◌-◌, ◌*◌, ◌/◌, ◌%◌, ◌≤◌, ◌<◌, ◌≡◌, Bool, true, ◌&&◌, arith, ltb, ◌==◌,
}

unfoldable pub floor_to_tick : ℕ → ℕ → ℕ
floor_to_tick price tick = (price / tick) * tick

unfoldable pub ceil_to_tick : ℕ → ℕ → ℕ
ceil_to_tick price tick = ((price + (tick - 1)) / tick) * tick

-- `_on_tick`
unfoldable pub on_tick : ℕ → ℕ → Bool
on_tick price tick = ltb 0 tick && price % tick == 0

-- For a positive tick, the floor is on the tick, at most the price, and less than a tick below it:
-- the greatest such price.
pub floor_to_tick_bounds :
    (price tick : ℕ)
    → 0 < tick
    → (floor_to_tick price tick ≤ price)
      × (price < floor_to_tick price tick + tick)
      × (on_tick (floor_to_tick price tick) tick ≡ true)
unfolding floor_to_tick on_tick
floor_to_tick_bounds price tick h = (
  grind (arith, div-add-mod price tick),
  grind (arith, div-add-mod price tick),
  ground (arith, mul-mod_left (price / tick) tick),
)

-- For a positive tick, the ceiling is on the tick, at least the price, and less than a tick above
-- it: the least such price.
pub ceil_to_tick_bounds :
    (price tick : ℕ)
    → 0 < tick
    → (price ≤ ceil_to_tick price tick)
      × (ceil_to_tick price tick < price + tick)
      × (on_tick (ceil_to_tick price tick) tick ≡ true)
unfolding ceil_to_tick on_tick
ceil_to_tick_bounds price tick h = (
  grind (arith, div-add-mod (price + (tick - 1)) tick),
  grind (arith, div-add-mod (price + (tick - 1)) tick),
  ground (arith, mul-mod_left ((price + (tick - 1)) / tick) tick),
)
