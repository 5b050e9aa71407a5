-- ===== src/Replay/Engine.antt =====
-- The schedule of `run_replay` of src/polymarket_bot/app/replay_engine.py: in which order decision
-- ticks and messages reach the pipeline, whatever a tick or a message does there.
use claude_route.Base.{
  ℕ, zero, suc, ◌+◌, ◌-◌, Option, none, some, List, [], ◌∷◌, ◌++◌, ltb, if◌then◌else◌,
}
use claude_route.Replay.{RawMessage, ReplayError, Yield}

-- `tick(t)`, or `apply(msg)`, for which the clock is advanced to the time of receipt and the paper
-- exchange matches the orders that are due before the message is applied.
pub data Event : Type 0 where
  tick : ℕ → Event
  apply : RawMessage → Event

-- `while next_tick < bound`: the ticks, and the next one behind them. `fuel` bounds their number;
-- the distance to the bound is enough where the interval is positive.
abbrev pub ticks_until : ℕ → ℕ → ℕ → ℕ → List Event × ℕ
ticks_until zero interval next bound = ([], next)
ticks_until (suc fuel) interval next bound =
    let (ts, after) = ticks_until fuel interval (next + interval) bound in
    if ltb next bound then (tick next ∷ ts, after) else ([], next)

abbrev pub ticks_before : ℕ → ℕ → ℕ → List Event × ℕ
ticks_before interval next bound = ticks_until (bound - next) interval next bound

-- How a replay fails: the `ValueError` of an empty session, or the error of the generator
pub data ReplayFailure : Type 0 where
  empty_session : ReplayFailure
  unreadable : ReplayError → ReplayFailure

-- The loop over the messages behind the first, and the loop of the tail, which an error of the
-- generator leaves out.
abbrev pub schedule : ℕ → ℕ → ℕ → ℕ → Yield → List Event
schedule interval tail_ms last_ms next ([], some e) = []
schedule interval tail_ms last_ms next ([], none) =
    (ticks_before interval next (suc (last_ms + tail_ms))).0
schedule interval tail_ms last_ms next (m ∷ ms, e) =
    let (ts, after) = ticks_before interval next m.received_ms in
    ts ++ apply m ∷ schedule interval tail_ms m.received_ms after (ms, e)

abbrev failure_of : Option ReplayError → Option ReplayFailure
failure_of none = none
failure_of (some e) = some (unreadable e)

-- `run_replay`: the events until it ends, and how it fails
unfoldable pub run_replay : ℕ → ℕ → Yield → List Event × Option ReplayFailure
run_replay interval tail_ms ([], none) = ([], some empty_session)
run_replay interval tail_ms ([], some e) = ([], some (unreadable e))
run_replay interval tail_ms (m ∷ ms, e) = (
  apply m ∷ schedule interval tail_ms m.received_ms (m.received_ms + interval) (ms, e),
  failure_of e,
)
