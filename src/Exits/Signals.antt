-- ===== src/Exits/Signals.antt =====
-- When src/polymarket_bot/exits/engine.py signals an exit, and what the signal says.
use claude_route.Base.{
  ℕ, ◌≤◌, ◌<◌, ◌≡◌, refl, Bool, false, not, ◌||◌, Option, none, some, ltb, ◌==◌, if_cases, if_keeps,
  subst, arith,
}
use claude_route.Domain.Types.{BotState}
use claude_route.Domain.Decisions.{ExitSignal}
use claude_route.Risk.Views.{TokenQuote, MarketSnapshot, quote}
use claude_route.Exits.{
  HeldPosition, ExitPolicyConfig, Estimate, HoldReason, ExitReason, Evaluation, Rule, hold,
  below_floor, exit, nothing, holds, sells, risk_floor, requested, conclude, usable_bid,
  usable_estimate, with_estimate, with_bid, with_quote, too_early, unless, priced, evaluate,
  forced_exit, has_value,
}
use claude_route.Exits.Priced.{Covers, Nets, IsCovered, rule-Good, risk_floor_bound}

-- All that stands behind a signal for `why`: the whole position is sold, at a price that the best
-- bid meets, not below the configured one, and where the rule is one of value, worth it; the market
-- is not about to resolve, the position is not too small to sell, its book is usable and there is
-- an estimate.
abbrev pub Sound :
    ExitPolicyConfig
    → HeldPosition
    → MarketSnapshot
    → Option Estimate
    → ExitReason
    → ExitSignal
    → Type 0
Sound cfg p s estimate why x =
    (q : TokenQuote) × (bid : ℕ) × (e : Estimate) × (price : ℕ) × ((too_early cfg p s ≡ none)
      × (quote s p.outcome ≡ some q)
      × (usable_bid cfg q ≡ some bid)
      × (usable_estimate estimate ≡ some e))
    × ((price ≤ bid)
        × (cfg.min_exit_price ≤ price)
        × Covers cfg s.market.fee_schedule e why price
        × Nets cfg s.market.fee_schedule p e bid why)
    × ((x.shares ≡ p.shares)
        × (x.token_id ≡ p.token_id)
        × (x.condition_id ≡ p.condition_id)
        × (x.min_price ≡ some price))

module _ (cfg : ExitPolicyConfig) (p : HeldPosition) (s : MarketSnapshot)
    (estimate : Option Estimate) where
  abbrev SoundEvaluation : Evaluation → Type 0
  SoundEvaluation (hold why) = Unit
  SoundEvaluation (below_floor why) = Unit
  SoundEvaluation (exit why urgent x) = Sound cfg p s estimate why x

  abbrev SoundResult : Option Evaluation → Type 0
  SoundResult none = Unit
  SoundResult (some v) = SoundEvaluation v

  with_quote_sound :
      (f : TokenQuote → Evaluation) (o : Option TokenQuote)
      → ((q : TokenQuote) → o ≡ some q → SoundEvaluation (f q))
      → SoundResult (with_quote f o)
  with_quote_sound f none h = tt
  with_quote_sound f (some q) h = h q refl

  with_bid_sound :
      (f : ℕ → Evaluation) (o : Option ℕ)
      → ((bid : ℕ) → o ≡ some bid → SoundEvaluation (f bid))
      → SoundEvaluation (with_bid f o)
  with_bid_sound f none h = tt
  with_bid_sound f (some bid) h = h bid refl

  with_estimate_sound :
      (f : Estimate → Evaluation) (o : Option Estimate)
      → ((e : Estimate) → o ≡ some e → SoundEvaluation (f e))
      → SoundEvaluation (with_estimate f o)
  with_estimate_sound f none h = tt
  with_estimate_sound f (some e) h = h e refl

  unless_sound :
      (o : Option HoldReason) (v : Option Evaluation)
      → (o ≡ none → SoundResult v)
      → SoundResult (unless o v)
  unless_sound none v h = h refl
  unless_sound (some why) v h = tt

  conclude_sound :
      (q : TokenQuote) (bid : ℕ) (e : Estimate) (now : ℕ) (r : Rule)
      → (too_early cfg p s ≡ none)
        × (quote s p.outcome ≡ some q)
        × (usable_bid cfg q ≡ some bid)
        × (usable_estimate estimate ≡ some e)
      → IsCovered cfg s.market.fee_schedule p e bid r
      → SoundEvaluation (conclude p bid now r)
  conclude_sound q bid e now nothing h c = tt
  conclude_sound q bid e now (holds why) h c = tt
  conclude_sound q bid e now (sells why price urgent) h (low, covers, nets) =
      if_cases SoundEvaluation (ltb bid price) (λ _. tt)
        (λ le. (q, bid, e, price, h, (ground arith, low, covers, nets), (refl, refl, refl, refl)))

  priced_sound :
      (rules : ℕ → Estimate → Rule) (now : ℕ)
      → ((bid : ℕ) (e : Estimate) → IsCovered cfg s.market.fee_schedule p e bid (rules bid e))
      → SoundResult (priced cfg p s estimate rules now)
  priced_sound rules now c = unless_sound (too_early cfg p s) _ (λ early.
      with_quote_sound _ (quote s p.outcome) (λ q quoted.
        with_bid_sound _ (usable_bid cfg q) (λ bid fresh.
          with_estimate_sound _ (usable_estimate estimate) (λ e good.
            conclude_sound q bid e now (rules bid e) (early, quoted, fresh, good) (c bid e)))))

-- An exit that `evaluate` signals sells the whole position of that token, at a lowest price that
-- the best bid meets and that is not below `min_exit_price`. Where the rule is one of value, a sale
-- at the best bid, its fee taken off, brings more than the upper bound of the value (edge negative),
-- the fair value less the tolerance (converged), the lower bound and the entry price with the profit
-- asked for (take profit), or the lower bound (not holding); and the lowest price is at least the
-- fair value, for a take profit the lower bound, with the fee of a sale at that value, less the
-- tolerance but for a take profit. A signal comes only with a bid of a valid and fresh book, a
-- usable estimate, a position that is not below the minimum size, and outside the window before the
-- resolution.
pub evaluate-Sound :
    (cfg : ExitPolicyConfig) (p : HeldPosition) (s : MarketSnapshot) (estimate : Option Estimate)
    (state : BotState) (kill anomaly : Bool) (now : ℕ) (why : ExitReason) (urgent : Bool)
    (x : ExitSignal)
    → 0 < s.market.tick_size
    → evaluate cfg p (some s) estimate state kill anomaly now ≡ some (exit why urgent x)
    → Sound cfg p s estimate why x
unfolding evaluate
evaluate-Sound cfg p s estimate state kill anomaly now why urgent x h e =
    let Result = SoundResult cfg p s estimate in
    subst Result e (
      if_keeps Result (p.shares == 0) tt (
        if_keeps Result anomaly tt (
          priced_sound cfg p s estimate _ now (λ bid f.
            rule-Good cfg s.market.fee_schedule s.market.tick_size p f bid h state kill now))))

-- A requested exit is priced like an exit for risk, under the same conditions: the whole position,
-- at a lowest price that the best bid meets and that is not below `min_exit_price`.
pub forced_exit-Sound :
    (cfg : ExitPolicyConfig) (p : HeldPosition) (s : MarketSnapshot) (estimate : Option Estimate)
    (now : ℕ) (why : ExitReason) (urgent : Bool) (x : ExitSignal)
    → 0 < s.market.tick_size
    → forced_exit cfg p (some s) estimate now ≡ some (exit why urgent x)
    → Sound cfg p s estimate why x
unfolding forced_exit
forced_exit-Sound cfg p s estimate now why urgent x h e =
    let Result = SoundResult cfg p s estimate in
    subst Result e (
      if_keeps Result (p.shares == 0 || not (has_value estimate)) tt (
        priced_sound cfg p s estimate
          (λ _ f. sells requested (risk_floor cfg s.market.tick_size f) false) now
          (λ bid f.
            (risk_floor_bound cfg s.market.fee_schedule s.market.tick_size p f bid h, tt, tt))))
