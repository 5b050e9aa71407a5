-- ===== src/Replay/Lookahead.antt =====
-- What a replay without lookahead is (src/polymarket_bot/app/replay_engine.py), and the ticks before
-- a bound.
use claude_route.Base.{
  ℕ, zero, suc, ◌+◌, ◌≤◌, ◌<◌, ◌≡◌, refl, List, [], ◌∷◌, ◌++◌, ltb, if_cases, arith, All,
}
use claude_route.Replay.{RawMessage}
use claude_route.Replay.Engine.{Event, tick, apply, ticks_until}

-- The messages are received at `lo` or later, none before the one ahead of it.
abbrev pub From : ℕ → List RawMessage → Type 0
From lo [] = Unit
From lo (m ∷ ms) = (lo ≤ m.received_ms) × From m.received_ms ms

-- Where an event may stand behind a tick, and behind a message.
abbrev pub AfterTick : ℕ → Event → Type 0
AfterTick t (tick s) = t < s
AfterTick t (apply m) = t < m.received_ms

abbrev pub AfterMessage : ℕ → Event → Type 0
AfterMessage r (tick s) = r ≤ s
AfterMessage r (apply m) = r ≤ m.received_ms

-- Behind a tick come only later ticks and messages received later; behind a message only ticks at
-- its time or later and messages received no earlier.
abbrev pub NoLookahead : List Event → Type 0
NoLookahead [] = Unit
NoLookahead (tick t ∷ es) = All (AfterTick t) es × NoLookahead es
NoLookahead (apply m ∷ es) = All (AfterMessage m.received_ms) es × NoLookahead es

-- The messages among the events
abbrev pub applied : List Event → List RawMessage
applied [] = []
applied (tick t ∷ es) = applied es
applied (apply m ∷ es) = m ∷ applied es

-- Ticks from `next` on and messages from `last` on
abbrev pub Above : ℕ → ℕ → Event → Type 0
Above next last (tick s) = next ≤ s
Above next last (apply m) = last ≤ m.received_ms

module _ (P Q : Event → Type 0) (f : (e : Event) → P e → Q e) where
  pub weaken : (es : List Event) → All P es → All Q es
  weaken [] h = tt
  weaken (e ∷ es) (h, k) = (f e h, weaken es k)

Above-AfterTick :
    (t next last : ℕ) → t < next → t < last → (e : Event) → Above next last e → AfterTick t e
Above-AfterTick t next last h k (tick s) a = omega (arith, h, a)
Above-AfterTick t next last h k (apply m) a = omega (arith, k, a)

pub Above-AfterMessage :
    (r next last : ℕ) → r ≤ next → r ≤ last → (e : Event) → Above next last e → AfterMessage r e
Above-AfterMessage r next last h k (tick s) a = omega (arith, h, a)
Above-AfterMessage r next last h k (apply m) a = omega (arith, k, a)

pub Above-mono : (n n' l l' : ℕ) → n ≤ n' → l ≤ l' → (e : Event) → Above n' l' e → Above n l e
Above-mono n n' l l' h k (tick s) a = omega (arith, h, a)
Above-mono n n' l l' h k (apply m) a = omega (arith, k, a)

-- What the ticks before a bound are, put in front of events that are above them: they have reached
-- the bound, keep the order, and bring no message.
abbrev pub Fits : ℕ → ℕ → List Event × ℕ → Type 0
Fits next bound r =
    (bound ≤ r.1)
    × (next ≤ r.1)
    × ((es : List Event)
        → NoLookahead es
        → All (Above r.1 bound) es
        → NoLookahead (r.0 ++ es)
          × All (Above next bound) (r.0 ++ es)
          × (applied (r.0 ++ es) ≡ applied es))

pub ticks_until-Fits :
    (fuel interval next bound : ℕ)
    → 0 < interval
    → bound ≤ next + fuel
    → Fits next bound (ticks_until fuel interval next bound)
ticks_until-Fits zero interval next bound h k =
    (omega (arith, k), omega arith, λ es a b. (a, b, refl))
ticks_until-Fits (suc fuel) interval next bound h k =
    let (reached, grown, rest) =
      ticks_until-Fits fuel interval (next + interval) bound h (omega (arith, h, k)) in
    if_cases (Fits next bound) (ltb next bound)
      (λ e. (
        reached,
        omega (arith, grown),
        λ es a b.
            let (order, above, same) = rest es a b in
            (
              (
                weaken (Above (next + interval) bound) (AfterTick next)
                    (Above-AfterTick next (next + interval) bound (omega (arith, h)) (ground arith))
                    _ above,
                order,
              ),
              (
                omega arith,
                weaken (Above (next + interval) bound) (Above next bound)
                    (Above-mono next (next + interval) bound bound (omega arith) (omega arith)) _
                    above,
              ),
              same,
            ),
      ))
      (λ e. (ground arith, omega arith, λ es a b. (a, b, refl)))
