-- ===== src/Watchdog.antt =====
-- `WatchdogEvaluator` and `Watchdog` of src/polymarket_bot/watchdog/watchdog.py. The limits of
-- `WatchdogConfig` that are seconds are given in the unit of what they are compared with. The
-- detail of an anomaly, the dump of a snapshot and the health summary are for readers of the log;
-- `render` makes the text of one anomaly.
pub mod Health
pub mod Healthy
pub mod Stall
pub mod Stops
mod Tests
use claude_route.Base.{
  ℕ, suc, ◌+◌, ◌-◌, String, Bool, true, false, not, ◌&&◌, ◌||◌, Option, none, some, List, [], ◌∷◌,
  ◌++◌, map, any, filter, is_empty, ltb, leb, ◌==◌, str_eq, if◌then◌else◌,
}
use claude_route.Base.Text.{◌<>◌}
use claude_route.Base.Int.{ℤ, pos_part, neg_part}
use claude_route.Domain.Types.{BotState, same_state}
use claude_route.Domain.Json.{Json, Items, Fields}
use claude_route.Lifecycle.Machine.{Machine, halt}
use claude_route.Watchdog.Health.{HealthRegistry, HealthSnapshot, snapshot}

pub record WatchdogConfig : Type 0 where
  pub loop_stall : ℕ
  pub max_market_data_silence_ms : ℕ
  pub max_reference_silence_ms : ℕ
  pub max_reconciliation_age_ms : ℕ
  pub max_clock_drift_ms : ℕ
  pub cancel_orders_on_halt : Bool

pub data Severity : Type 0 where
  halt_recoverable halt_manual kill : Severity

pub data Code : Type 0 where
  event_loop_stall market_stream_down market_stream_silent reference_stream_down
        reference_stream_silent clock_drift_unknown clock_drift reconciliation_stale
        reconciliation_mismatch unknown_order_state unhandled_exception :
      Code

abbrev pub code_name : Code → String
code_name event_loop_stall = "event_loop_stall"
code_name market_stream_down = "market_stream_down"
code_name market_stream_silent = "market_stream_silent"
code_name reference_stream_down = "reference_stream_down"
code_name reference_stream_silent = "reference_stream_silent"
code_name clock_drift_unknown = "clock_drift_unknown"
code_name clock_drift = "clock_drift"
code_name reconciliation_stale = "reconciliation_stale"
code_name reconciliation_mismatch = "reconciliation_mismatch"
code_name unknown_order_state = "unknown_order_state"
code_name unhandled_exception = "unhandled_exception"

abbrev pub code_index : Code → ℕ
code_index event_loop_stall = 0
code_index market_stream_down = 1
code_index market_stream_silent = 2
code_index reference_stream_down = 3
code_index reference_stream_silent = 4
code_index clock_drift_unknown = 5
code_index clock_drift = 6
code_index reconciliation_stale = 7
code_index reconciliation_mismatch = 8
code_index unknown_order_state = 9
code_index unhandled_exception = 10

abbrev pub same_code : Code → Code → Bool
same_code c d = code_index c == code_index d

pub record Anomaly : Type 0 where
  pub code : Code
  pub severity : Severity

abbrev pub anomaly_if : Bool → Code → Severity → List Anomaly
anomaly_if true c s = (record { code = c; severity = s }) ∷ []
anomaly_if false c s = []

-- `age is not None and age > limit`
abbrev pub exceeds : Option ℕ → ℕ → Bool
exceeds none limit = false
exceeds (some age) limit = ltb limit age

-- `_silent`
abbrev pub silent : ℕ → Option ℕ → ℕ → Bool
silent now_ms none limit_ms = true
silent now_ms (some last_ms) limit_ms = ltb limit_ms (now_ms - last_ms)

-- `abs(drift) > limit`
abbrev pub drifts : ℕ → ℤ → Bool
drifts limit d = ltb limit (pos_part d + neg_part d)

abbrev pub stream_anomalies : Bool → Bool → Code → Code → List Anomaly
stream_anomalies connected is_silent down quiet =
    if not connected
    then anomaly_if true down halt_recoverable
    else anomaly_if is_silent quiet halt_recoverable

abbrev pub drift_anomalies : ℕ → Option ℤ → List Anomaly
drift_anomalies limit none = anomaly_if true clock_drift_unknown halt_recoverable
drift_anomalies limit (some d) = anomaly_if (drifts limit d) clock_drift halt_manual

abbrev pub reconciliation_anomalies : Bool → Bool → List Anomaly
reconciliation_anomalies stale good =
    if stale
    then anomaly_if true reconciliation_stale halt_recoverable
    else anomaly_if (not good) reconciliation_mismatch halt_manual

-- The checks behind the test for trading.
unfoldable pub data_anomalies : WatchdogConfig → HealthSnapshot → List Anomaly
data_anomalies cfg h =
    stream_anomalies h.market_stream_connected
      (silent h.now_ms h.market_last_book_event_ms cfg.max_market_data_silence_ms)
      market_stream_down market_stream_silent
    ++ stream_anomalies h.reference_stream_connected
        (silent h.now_ms h.reference_last_event_ms cfg.max_reference_silence_ms)
        reference_stream_down reference_stream_silent
    ++ drift_anomalies cfg.max_clock_drift_ms h.clock_drift_ms
    ++ reconciliation_anomalies
        (silent h.now_ms h.last_reconciliation_ms cfg.max_reconciliation_age_ms)
        h.last_reconciliation_ok
    ++ anomaly_if (ltb 0 h.unknown_orders) unknown_order_state halt_manual
    ++ anomaly_if (ltb 0 h.unhandled_exceptions) unhandled_exception halt_manual

-- `WatchdogEvaluator.evaluate`; `trading` is what `trading_active()` returns.
unfoldable pub evaluate : WatchdogConfig → Bool → Bool → HealthSnapshot → List Anomaly
evaluate cfg trading force h =
    anomaly_if (exceeds h.loop_beat_age cfg.loop_stall) event_loop_stall halt_manual
    ++ (if not force && not trading then [] else data_anomalies cfg h)

pub record Incident : Type 0 where
  pub severity : String
  pub kind : String
  pub codes : List Code

-- The watchdog with what it reads and writes: the registry, the state machine, the incidents, and
-- the reasons with which it has called the kill switch.
pub record World : Type 0 where
  pub registry : HealthRegistry
  pub machine : Machine
  pub incidents : List Incident
  pub kills : List String
  pub last_anomalies : List Anomaly
  pub active_codes : List Code

abbrev pub trading_active : Machine → Bool
trading_active m = same_state m.state BotState.paper || same_state m.state BotState.live

-- `healthy`
abbrev pub is_healthy : World → Bool
is_healthy w = is_empty w.last_anomalies

abbrev severity_index : Severity → ℕ
severity_index halt_recoverable = 0
severity_index halt_manual = 1
severity_index kill = 2

abbrev pub is_kill : Anomaly → Bool
is_kill a = severity_index a.severity == 2

abbrev pub is_manual : Anomaly → Bool
is_manual a = severity_index a.severity == 1

abbrev severity_name : Severity → String
severity_name halt_recoverable = "halt_recoverable"
severity_name halt_manual = "halt_manual"
severity_name kill = "kill"

abbrev pub codes_of : List Anomaly → List Code
codes_of = map (λ a. a.code)

-- `"; ".join(...)`
abbrev join : (Anomaly → String) → List Anomaly → String
join render [] = ""
join render (a ∷ []) = render a
join render (a ∷ found) = render a <> "; " <> join render found

abbrev listed : List Anomaly → Items
listed [] = Items.nil
listed (a ∷ found) =
    Items.cons
      (Json.object (
        Fields.field "code" (Json.text (code_name a.code))
          (Fields.field "severity" (Json.text (severity_name a.severity)) Fields.end)))
      (listed found)

abbrev report : String → String → List Anomaly → World → World
report severity kind found w = record w {
  incidents =
      w.incidents ++ (record { severity = severity; kind = kind; codes = codes_of found }) ∷ [];
}

-- The first part of `_act`: the kill switch, or a halt of a bot that trades or is about to.
unfoldable pub stop : (Anomaly → String) → ℕ → List Anomaly → World → World
stop render now found w =
    let reason = "watchdog: " <> join render found in
    let manual = any is_manual found in
    if any is_kill found
    then (let w' = report "critical" "watchdog_kill" found w in
        record w' { kills = w'.kills ++ reason ∷ [] })
    else if trading_active w.machine || same_state w.machine.state BotState.syncing
    then (let w' = report (if manual then "critical" else "warning") "watchdog_halt" found w in
        record w' {
          machine =
              (halt now reason manual "watchdog"
                (some (Fields.field "anomalies" (Json.array (listed found)) Fields.end))
                w'.machine).1;
        })
    else w

-- `cancel_all` is `none` where the watchdog has none, and otherwise what calling it gives: `none`
-- for an exception, which is logged.
unfoldable pub cancel : Bool → Option (Option Bool) → List Anomaly → World → World
cancel wanted none found w = w
cancel wanted (some (some true)) found w = w
cancel wanted (some _) found w =
    if wanted then report "critical" "watchdog_cancel_failed" found w else w

abbrev is_new : List Code → Anomaly → Bool
is_new active a = not (any (same_code a.code) active)

-- `check_once`
unfoldable pub check_once :
    WatchdogConfig → (Anomaly → String) → ℕ → ℕ → Option (Option Bool) → World → World
check_once cfg render monotonic now cancel_all w =
    let found = evaluate cfg (trading_active w.machine) false (snapshot monotonic now w.registry) in
    let fresh = filter (is_new w.active_codes) found in
    let w' = record w { last_anomalies = found; active_codes = codes_of found } in
    if is_empty fresh
    then w'
    else cancel cfg.cancel_orders_on_halt cancel_all fresh (stop render now fresh w')

-- `recovery_blockers`
unfoldable pub recovery_blockers : WatchdogConfig → ℕ → ℕ → World → List Anomaly
recovery_blockers cfg monotonic now w =
    evaluate cfg (trading_active w.machine) true (snapshot monotonic now w.registry)
