-- ===== src/Portfolio/Marks.antt =====
-- Proofs on `mark` of the portfolio.
use claude_route.Base.{ℕ, ◌≤◌, ◌≡◌, ◌≢◌, String, Option, List, [], ◌∷◌, arith}
use claude_route.Base.Int.{pos, ◌+ℤ◌, ◌≤ℤ◌, max_ℤ_ge, int_laws}
use claude_route.Base.Dict.{Dict}
use claude_route.Portfolio.{Portfolio, Position, day, value, conservative, mark, exposure_usd}

conservative-le-value :
    (marks : Dict ℕ) (ps : Dict Position) → conservative marks ps ≤ value marks ps
unfolding conservative value
conservative-le-value marks [] = omega arith
conservative-le-value marks (e ∷ ps) = omega (arith, conservative-le-value marks ps)

conservative-le-exposure :
    (marks : Dict ℕ) (ps : Dict Position) → conservative marks ps ≤ exposure_usd ps
unfolding conservative exposure_usd
conservative-le-exposure marks [] = omega arith
conservative-le-exposure marks (e ∷ ps) = omega (arith, conservative-le-exposure marks ps)

-- After a mark, the equity of the loss limits is at most the marked equity and at most cash plus
-- cost; the peak has not fallen and is at least that equity.
pub mark_bounds :
    (bids : List (String × Option ℕ)) (now : ℕ) (f : Portfolio)
    → let f' = mark bids now f in
      (f'.risk_equity_usd ≤ℤ f'.equity_usd)
      × (f'.risk_equity_usd ≤ℤ f.cash_usd +ℤ pos (exposure_usd f.positions))
      × (f.peak_equity_usd ≤ℤ f'.peak_equity_usd)
      × (f'.risk_equity_usd ≤ℤ f'.peak_equity_usd)
unfolding mark
mark_bounds bids now f =
    let marks = (mark bids now f).marks in
    let risk = (mark bids now f).risk_equity_usd in
    (
      omega (int_laws, conservative-le-value marks f.positions),
      omega (int_laws, conservative-le-exposure marks f.positions),
      (max_ℤ_ge f.peak_equity_usd risk).0,
      (max_ℤ_ge f.peak_equity_usd risk).1,
    )

-- The start-of-day equity is reset to the conservative equity exactly when the day has changed.
pub mark-day :
    (bids : List (String × Option ℕ)) (now : ℕ) (f : Portfolio)
    → let f' = mark bids now f in
      (f'.current_day ≡ day now)
      × (day now ≡ f.current_day → f'.start_of_day_equity_usd ≡ f.start_of_day_equity_usd)
      × (day now ≢ f.current_day → f'.start_of_day_equity_usd ≡ f'.risk_equity_usd)
unfolding mark
mark-day bids now f = ground arith
