-- ===== src/Risk/Loss.antt =====
-- `loss_limit_breaches` of the risk engine. The two quotients are compared without their division,
-- and so without its rounding to 28 digits.
use claude_route.Base.{ℕ, ◌*◌, Bool, ◌&&◌, List, [], ◌∷◌, ◌++◌, if◌then◌else◌}
use claude_route.Base.Int.{ℤ, pos, ◌-ℤ◌, ◌+ℤ◌, leb_ℤ, ltb_ℤ, sub_ℕ, pos_part, neg_part}
use claude_route.Risk.Policy.{RiskPolicy}
use claude_route.Risk.Views.{PortfolioView, daily_pnl_usd}

pub data Breach : Type 0 where
  daily_loss daily_loss_pct drawdown : Breach

abbrev pub scale : ℕ → ℤ → ℤ
scale k z = sub_ℕ (k * pos_part z) (k * neg_part z)

abbrev pub million : ℕ
million = 1_000_000

abbrev breach_if : Bool → Breach → List Breach
breach_if b x = if b then x ∷ [] else []

unfoldable pub loss_limit_breaches : RiskPolicy → PortfolioView → List Breach
unfolding daily_pnl_usd
loss_limit_breaches p f =
    breach_if (leb_ℤ (daily_pnl_usd f +ℤ pos p.max_daily_loss_usd) (pos 0)) daily_loss
    ++ breach_if
        (ltb_ℤ (pos 0) f.start_of_day_equity_usd
          && leb_ℤ (scale p.max_daily_loss_pct f.start_of_day_equity_usd)
              (scale million (pos 0 -ℤ daily_pnl_usd f)))
        daily_loss_pct
    ++ breach_if
        (ltb_ℤ (pos 0) f.peak_equity_usd
          && leb_ℤ (scale p.max_drawdown_pct f.peak_equity_usd)
              (scale million (f.peak_equity_usd -ℤ f.equity_usd)))
        drawdown
