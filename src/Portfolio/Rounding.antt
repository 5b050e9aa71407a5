-- ===== src/Portfolio/Rounding.antt =====
-- Division that rounds to the nearest unit, ties to even: `quantize` under the default context.
use native.Mathlib.Nat.{div-add-mod}
use claude_route.Base.{
  ℕ, suc, ◌+◌, ◌*◌, ◌/◌, ◌%◌, ◌≤◌, ◌<◌, ◌≡◌, ◌⊎◌, inl, inr, ◌&&◌, ◌||◌, arith, ltb, ◌==◌,
  if◌then◌else◌,
}

unfoldable pub round_half_even : ℕ → ℕ → ℕ
round_half_even n d =
    let q = n / d in
    let r = n % d in if ltb d (2 * r) || (2 * r == d && q % 2 == 1) then suc q else q

-- Down where the remainder is at most half, up where it is at least half.
Rounds : ℕ → ℕ → ℕ → Type 0
Rounds n d k = ((k ≡ n / d) × (2 * (n % d) ≤ d)) ⊎ ((k ≡ suc (n / d)) × (d ≤ 2 * (n % d)))

round_half_even-Rounds : (n d : ℕ) → Rounds n d (round_half_even n d)
unfolding round_half_even Rounds
round_half_even-Rounds n d = ground arith

-- The result is within half a unit of the quotient.
pub round_half_even_near :
    (n d : ℕ)
    → 0 < d
    → (2 * (d * round_half_even n d) ≤ 2 * n + d) × (2 * n ≤ 2 * (d * round_half_even n d) + d)
unfolding Rounds
round_half_even_near n d h = elim (round_half_even-Rounds n d) [
  | inl p ↦ rw p.0 (omega (arith, div-add-mod n d, p.1))
  | inr p ↦ rw p.0 (omega (arith, div-add-mod n d, p.1))
]

-- A quotient of at most `m` is rounded to at most `m`.
pub round_half_even-le : (n d m : ℕ) → 0 < d → n ≤ m * d → round_half_even n d ≤ m
unfolding Rounds
round_half_even-le n d m h k = elim (round_half_even-Rounds n d) [
  | inl p ↦ rw p.0 (grind (arith, div-add-mod n d, p.1))
  | inr p ↦ rw p.0 (grind (arith, div-add-mod n d, p.1))
]
