-- ===== src/Llm/Tighten.antt =====
-- What `tighten_candidate` of src/polymarket_bot/llm/schemas.py can do to a candidate.
use claude_route.Base.{◌≡◌, refl, false, Option, none, some, if_cases, arith}
use claude_route.Base.Int.{ℤ, ◌≤ℤ◌, ◌-ℤ◌, max_ℤ, leb_ℤ, -ℤ_parts, max_ℤ_ge}
use claude_route.Risk.Views.{TradeCandidate}
use claude_route.Llm.Reviewer.{LlmReview, lowered, tighten_by, tighten_candidate}

-- No edge is larger, no probability is larger than it was or than the floor, and what the order
-- would be is the same.
abbrev pub IsTighter : ℤ → TradeCandidate → TradeCandidate → Type 0
IsTighter floor c d =
    ((d.expected_edge ≤ℤ c.expected_edge)
      × (d.conservative_edge ≤ℤ c.conservative_edge)
      × (d.worst_case_edge ≤ℤ c.worst_case_edge))
    × ((d.fair_probability ≤ℤ max_ℤ floor c.fair_probability)
        × (d.probability_lower ≤ℤ max_ℤ floor c.probability_lower)
        × (d.probability_upper ≤ℤ max_ℤ floor c.probability_upper))
    × ((d.token_id ≡ c.token_id)
        × (d.side ≡ c.side)
        × (d.worst_price ≡ c.worst_price)
        × (d.notional_usd ≡ c.notional_usd)
        × (d.rejections ≡ c.rejections))

le_refl : (x : ℤ) → x ≤ℤ x
le_refl x = omega arith

le_max : (floor x : ℤ) → x ≤ℤ max_ℤ floor x
le_max floor x = (max_ℤ_ge floor x).1

sub_le : (x f p : ℤ) → leb_ℤ f p ≡ false → x -ℤ (f -ℤ p) ≤ℤ x
sub_le x f p h = ground (arith, -ℤ_parts f p, -ℤ_parts x (f -ℤ p))

max_le_max : (floor x y : ℤ) → x ≤ℤ y → max_ℤ floor x ≤ℤ max_ℤ floor y
unfolding max_ℤ
max_le_max floor x y h = ground arith

same-IsTighter : (floor : ℤ) (c : TradeCandidate) → IsTighter floor c c
same-IsTighter floor c = (
  (le_refl c.expected_edge, le_refl c.conservative_edge, le_refl c.worst_case_edge),
  (
    le_max floor c.fair_probability,
    le_max floor c.probability_lower,
    le_max floor c.probability_upper,
  ),
  (refl, refl, refl, refl, refl),
)

lowered_le : (floor f p x : ℤ) → leb_ℤ f p ≡ false → lowered floor (f -ℤ p) x ≤ℤ max_ℤ floor x
lowered_le floor f p x h = max_le_max floor (x -ℤ (f -ℤ p)) x (sub_le x f p h)

tighten_by-IsTighter :
    (floor : ℤ) (o : Option ℤ) (c : TradeCandidate) → IsTighter floor c (tighten_by floor o c)
tighten_by-IsTighter floor none c = same-IsTighter floor c
tighten_by-IsTighter floor (some p) c =
    if_cases (IsTighter floor c) (leb_ℤ c.fair_probability p) (λ _. same-IsTighter floor c)
      (λ h. (
        (
          sub_le c.expected_edge c.fair_probability p h,
          sub_le c.conservative_edge c.fair_probability p h,
          sub_le c.worst_case_edge c.fair_probability p h,
        ),
        (
          lowered_le floor c.fair_probability p c.fair_probability h,
          lowered_le floor c.fair_probability p c.probability_lower h,
          lowered_le floor c.fair_probability p c.probability_upper h,
        ),
        (refl, refl, refl, refl, refl),
      ))

-- A review can only tighten a candidate: no edge grows, no probability grows beyond the floor, and
-- the token, the side, the limit price, the size and the rejections stay.
pub tighten_candidate-IsTighter :
    (floor : ℤ) (c : TradeCandidate) (r : LlmReview)
    → IsTighter floor c (tighten_candidate floor c r)
unfolding tighten_candidate
tighten_candidate-IsTighter floor c r = tighten_by-IsTighter floor r.fair_probability_override c
