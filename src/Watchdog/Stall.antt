-- ===== src/Watchdog/Stall.antt =====
-- `LoopStallDetector` of src/polymarket_bot/watchdog/watchdog.py, the thread that watches the event
-- loop from outside. A round gets the registry and the machine as the other threads have left them;
-- `render` and `details` make the text and the details of a stall's age.
pub mod Detected
mod Tests
use claude_route.Base.{
  ℕ, String, Bool, true, false, not, ◌&&◌, Option, none, some, List, [], ◌∷◌, ◌++◌, ltb,
  if◌then◌else◌,
}
use claude_route.Base.Text.{◌<>◌}
use claude_route.Domain.Json.{Fields}
use claude_route.Lifecycle.Machine.{Machine, halt}
use claude_route.Watchdog.Health.{HealthRegistry, snapshot}

-- `running` until an exception ends the thread; `reports` are the ages in the files it has written.
pub record Detector : Type 0 where
  pub running : Bool
  pub triggered : Bool
  pub reports : List ℕ

abbrev pub new : Detector
new = record { running = true; triggered = false; reports = [] }

-- `written` tells whether the directory and the file of the report could be written.
pub record Round : Type 0 where
  pub monotonic : ℕ
  pub now_ms : ℕ
  pub registry : HealthRegistry
  pub machine : Machine
  pub written : Bool

abbrev pub age_seen : Round → Option ℕ
age_seen r = (snapshot r.monotonic r.now_ms r.registry).loop_beat_age

-- The age of the stall to act on
abbrev pub acts_on : ℕ → Detector → Option ℕ → Option ℕ
acts_on limit d none = none
acts_on limit d (some age) =
    if d.running && ltb limit age && not d.triggered then some age else none

-- The report is written before the halt, and outside of the `try` around it.
abbrev pub act : (ℕ → String) → (ℕ → Fields) → Round → Detector → Option ℕ → Detector × Machine
act render details r d none = (d, r.machine)
act render details r d (some age) =
    let d' = record d { triggered = true } in
    let reason = "event loop stalled " <> render age in
    if r.written
    then (
      record d' { reports = d.reports ++ age ∷ [] },
      (halt r.now_ms reason true "watchdog.loop_stall" (some (details age)) r.machine).1,
    )
    else (record d' { running = false }, r.machine)

-- One round of `_run`
unfoldable pub poll : ℕ → (ℕ → String) → (ℕ → Fields) → Round → Detector → Detector × Machine
poll limit render details r d = act render details r d (acts_on limit d (age_seen r))

-- The detector behind all rounds
abbrev pub watch : ℕ → (ℕ → String) → (ℕ → Fields) → List Round → Detector → Detector
watch limit render details [] d = d
watch limit render details (r ∷ rs) d =
    watch limit render details rs (poll limit render details r d).0
