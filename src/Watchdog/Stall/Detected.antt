-- ===== src/Watchdog/Stall/Detected.antt =====
-- What becomes of a blocked event loop (`LoopStallDetector` of
-- src/polymarket_bot/watchdog/watchdog.py).
use claude_route.Base.{
  ℕ, String, Bool, true, false, Option, none, some, List, [], ◌∷◌, ◌≡◌, ◌∙◌, refl, ap, arith, All,
}
use claude_route.Domain.Types.{BotState}
use claude_route.Domain.Json.{Fields}
use claude_route.Lifecycle.Machine.{Machine, halt, transition, can_open_positions}
use claude_route.Watchdog.{exceeds, trading_active}
use claude_route.Watchdog.Stall.{Detector, new, Round, age_seen, acts_on, act, poll, watch}

abbrev pub is_stalled : ℕ → Round → Bool
is_stalled limit r = exceeds (age_seen r) limit

-- A machine that a stall has stopped, until an operator starts it again
abbrev pub IsStopped : Machine → Type 0
IsStopped m = (m.state ≡ BotState.halted) × (m.manual_only ≡ true) × (can_open_positions m ≡ false)

halt-IsStopped :
    (now : ℕ) (reason : String) (component : String) (details : Option Fields) (m : Machine)
    → trading_active m ≡ true
    → IsStopped (halt now reason true component details m).1
unfolding halt transition can_open_positions
halt-IsStopped now reason component details m h = ground arith

module _ (limit : ℕ) (render : ℕ → String) (details : ℕ → Fields) where
  acts_on-calm : (d : Detector) (a : Option ℕ) → exceeds a limit ≡ false → acts_on limit d a ≡ none
  acts_on-calm d none h = refl
  acts_on-calm d (some age) h = ground arith

  acts_on-triggered : (d : Detector) (a : Option ℕ) → d.triggered ≡ true → acts_on limit d a ≡ none
  acts_on-triggered d none h = refl
  acts_on-triggered d (some age) h = ground arith

  poll-calm :
      (r : Round) (d : Detector)
      → is_stalled limit r ≡ false
      → poll limit render details r d ≡ (d, r.machine)
  unfolding poll
  poll-calm r d h = ap (act render details r d) (acts_on-calm d (age_seen r) h)

  poll-triggered :
      (r : Round) (d : Detector)
      → d.triggered ≡ true
      → poll limit render details r d ≡ (d, r.machine)
  unfolding poll
  poll-triggered r d h = ap (act render details r d) (acts_on-triggered d (age_seen r) h)

  watch-calm :
      (rs : List Round) (d : Detector)
      → All (λ r. is_stalled limit r ≡ false) rs
      → watch limit render details rs d ≡ d
  watch-calm [] d h = refl
  watch-calm (r ∷ rs) d (h, k) =
      ap (λ p. watch limit render details rs p.0) (poll-calm r d h) ∙ watch-calm rs d k

  watch-triggered :
      (rs : List Round) (d : Detector) → d.triggered ≡ true → watch limit render details rs d ≡ d
  watch-triggered [] d h = refl
  watch-triggered (r ∷ rs) d h =
      ap (λ p. watch limit render details rs p.0) (poll-triggered r d h) ∙ watch-triggered rs d h

  act-fires :
      (r : Round) (a : Option ℕ)
      → exceeds a limit ≡ true
      → r.written ≡ true
      → trading_active r.machine ≡ true
      → let (d, m) = act render details r new (acts_on limit new a) in
        (d.triggered ≡ true) × IsStopped m
  act-fires r none h w t = ground arith
  act-fires r (some age) h w t =
      rw (h, w)
        (refl, halt-IsStopped r.now_ms _ "watchdog.loop_stall" (some (details age)) r.machine t)

  -- The detector is silent until the first round in which the age of the loop's beat is above the
  -- limit. If the bot trades in that round, and the report can be written, the machine is then
  -- HALTED until an operator starts it, and no position can be opened. From then on the detector
  -- changes neither itself nor the machine, whatever it sees.
  pub first_stall :
      (before after : List Round) (r q : Round)
      → All (λ p. is_stalled limit p ≡ false) before
      → is_stalled limit r ≡ true
      → r.written ≡ true
      → trading_active r.machine ≡ true
      → let (d, m) = poll limit render details r (watch limit render details before new) in
        (watch limit render details before new ≡ new)
        × IsStopped m
        × (poll limit render details q (watch limit render details after d) ≡ (d, q.machine))
  unfolding poll
  first_stall before after r q h s w t = rw (watch-calm before new h) (
      let (fired, stopped) = act-fires r (age_seen r) s w t in
      let d = (poll limit render details r new).0 in
      (
        refl,
        stopped,
        ap (poll limit render details q) (watch-triggered after d fired) ∙ poll-triggered q d fired,
      ))
