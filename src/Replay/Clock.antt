-- ===== src/Replay/Clock.antt =====
-- The clock of a replay, `SimulatedClock` of src/polymarket_bot/domain/clock.py, and how the events
-- of a replay move it.
use claude_route.Base.{
  ℕ, ◌+◌, ◌-◌, ◌*◌, ◌≤◌, ◌≡◌, ◌∙◌, refl, ap, Option, none, some, List, [], ◌∷◌, ltb, if◌then◌else◌,
  if_cases, arith, All,
}
use claude_route.Replay.{RawMessage}
use claude_route.Replay.Engine.{Event, tick, apply}
use claude_route.Replay.Lookahead.{AfterTick, AfterMessage, NoLookahead, weaken}

pub record SimulatedClock : Type 0 where
  pub now_ms : ℕ
  pub mono_ns : ℕ

abbrev pub new : ℕ → SimulatedClock
new start_ms = record { now_ms = start_ms; mono_ns = 0 }

-- `none` where it raises a `ValueError`
unfoldable pub advance_to : ℕ → SimulatedClock → Option SimulatedClock
advance_to t_ms c =
    if ltb t_ms c.now_ms
    then none
    else some (record { now_ms = t_ms; mono_ns = c.mono_ns + (t_ms - c.now_ms) * 1_000_000 })

-- The time to which `tick` and `apply` of `run_replay` advance the clock
abbrev pub time_of : Event → ℕ
time_of (tick t) = t
time_of (apply m) = m.received_ms

abbrev and_then :
    Option SimulatedClock → (SimulatedClock → Option SimulatedClock) → Option SimulatedClock
and_then none f = none
and_then (some c) f = f c

-- The clock behind all events, if none of them fails
abbrev pub advance_all : List Event → SimulatedClock → Option SimulatedClock
advance_all [] c = some c
advance_all (e ∷ es) c = and_then (advance_to (time_of e) c) (advance_all es)

-- The time of the last event
abbrev pub end_of : ℕ → List Event → ℕ
end_of t [] = t
end_of t (e ∷ es) = end_of (time_of e) es

-- A clock that has run from `s` to `t`
abbrev pub moved : ℕ → ℕ → SimulatedClock
moved s t = record { now_ms = t; mono_ns = (t - s) * 1_000_000 }

abbrev AtLeast : ℕ → Event → Type 0
AtLeast t e = t ≤ time_of e

AfterTick-AtLeast : (t : ℕ) → (e : Event) → AfterTick t e → AtLeast t e
AfterTick-AtLeast t (tick s) h = omega (arith, h)
AfterTick-AtLeast t (apply m) h = omega (arith, h)

AfterMessage-AtLeast : (r : ℕ) → (e : Event) → AfterMessage r e → AtLeast r e
AfterMessage-AtLeast r (tick s) h = h
AfterMessage-AtLeast r (apply m) h = h

later_events :
    (e : Event)
    → (es : List Event) → NoLookahead (e ∷ es)
    → All (AtLeast (time_of e)) es × NoLookahead es
later_events (tick t) es (h, k) = (weaken (AfterTick t) (AtLeast t) (AfterTick-AtLeast t) es h, k)
later_events (apply m) es (h, k) = (
  weaken (AfterMessage m.received_ms) (AtLeast m.received_ms) (AfterMessage-AtLeast m.received_ms)
      es h,
  k,
)

elapsed :
    (s t u : ℕ) → s ≤ t → t ≤ u → (t - s) * 1_000_000 + (u - t) * 1_000_000 ≡ (u - s) * 1_000_000
elapsed s t u h k = omega (arith, h, k)

advance_to-moved : (s t u : ℕ) → s ≤ t → t ≤ u → advance_to u (moved s t) ≡ some (moved s u)
unfolding advance_to
advance_to-moved s t u h k =
    if_cases (λ r. r ≡ some (moved s u)) (ltb u t) (λ e. ground arith)
      (λ e. ap (λ n. some (record { now_ms = u; mono_ns = n })) (elapsed s t u h k))

pub advance_all-NoLookahead :
    (es : List Event)
    → (s t : ℕ) → s ≤ t
    → All (AtLeast t) es
    → NoLookahead es
    → advance_all es (moved s t) ≡ some (moved s (end_of t es))
advance_all-NoLookahead [] s t h a n = refl
advance_all-NoLookahead (e ∷ es) s t h (k, a) n =
    let (later, order) = later_events e es n in
    ap (λ r. and_then r (advance_all es)) (advance_to-moved s t (time_of e) h k)
    ∙ advance_all-NoLookahead es s (time_of e) (omega (arith, h, k)) later order

-- Events that begin with a message, on a clock that is started at its time
pub advance_all-first :
    (m : RawMessage)
    → (es : List Event) → NoLookahead (apply m ∷ es)
    → advance_all (apply m ∷ es) (new m.received_ms)
      ≡ some (moved m.received_ms (end_of m.received_ms es))
advance_all-first m es n =
    let r = m.received_ms in
    ap (λ k. advance_all (apply m ∷ es) (record { now_ms = r; mono_ns = k })) (omega arith)
    ∙ advance_all-NoLookahead (apply m ∷ es) r r (omega arith)
        (omega arith, (later_events (apply m) es n).0) n
