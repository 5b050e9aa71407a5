-- ===== src/Watchdog/Tests.antt =====
-- The watchdog on a concrete bot.
use claude_route.Base.{◌≡◌, ◌↔◌, ◌⊎◌, refl, String, true, false, none, some, [], ◌∷◌, any, is_empty}
use claude_route.Base.Int.{pos}
use claude_route.Base.Dict.{insert}
use claude_route.Domain.Types.{BotState}
use claude_route.Lifecycle.Machine.{Machine, can_open_positions}
use claude_route.Watchdog.Health.{HealthRegistry, HealthSnapshot, snapshot}
use claude_route.Watchdog.Health
use claude_route.Watchdog.{
  WatchdogConfig, Anomaly, World, Code, is_manual, check_once, recovery_blockers, evaluate,
  data_anomalies, codes_of, code_name, market_stream_silent,
}
use claude_route.Watchdog.Healthy.{IsHealthy, evaluate-IsHealthy}
use claude_route.Watchdog.Stops.{found_by, fresh_by, check_once-halt, recovery_blockers-check_once}

abbrev config : WatchdogConfig
config = record {
  loop_stall = 5_000;
  max_market_data_silence_ms = 10_000;
  max_reference_silence_ms = 10_000;
  max_reconciliation_age_ms = 180_000;
  max_clock_drift_ms = 1_000;
  cancel_orders_on_halt = true;
}

-- All components have reported at the time 100000.
abbrev reported : HealthRegistry
reported = Health.beat_loop 50 (
    Health.market_book_event 100_000 (
      Health.market_stream true (some 100_000) (
        Health.reference_event "spot" 100_000 (
          Health.reference_stream true (some 100_000)
            (Health.reconciliation 100_000 true (Health.clock_drift (some (pos 20)) Health.new))))))

abbrev machine : BotState → Machine
machine s = record { state = s; reason = "test"; manual_only = false; live_auth = none }

abbrev world : BotState → World
world s = record {
  registry = reported;
  machine = machine s;
  incidents = [];
  kills = [];
  last_anomalies = [];
  active_codes = [];
}

abbrev render : Anomaly → String
render a = code_name a.code

blockers : recovery_blockers config 60 101_000 (world BotState.halted) ≡ []
unfolding recovery_blockers evaluate data_anomalies Health.snapshot Health.new insert
blockers = refl

silence :
    codes_of (found_by config 60 111_000 (world BotState.live))
    ≡ market_stream_silent ∷ Code.reference_stream_silent ∷ []
unfolding evaluate data_anomalies Health.snapshot Health.new insert
silence = refl

idle : found_by config 60 111_000 (world BotState.halted) ≡ []
unfolding evaluate Health.snapshot Health.new insert
idle = refl

evaluate-IsHealthy_example :
    let h = Health.snapshot 60 101_000 reported in
    (is_empty (evaluate config false true h) ≡ true) ↔ IsHealthy config h
evaluate-IsHealthy_example = evaluate-IsHealthy config false (Health.snapshot 60 101_000 reported)

check_once-halt_example :
    let w = world BotState.live in
    let w' = check_once config render 60 111_000 (some (some true)) w in
    (((is_empty (fresh_by config 60 111_000 w) ≡ true) × (w'.machine ≡ w.machine))
      ⊎ ((is_empty (fresh_by config 60 111_000 w) ≡ false)
          × (w'.machine.state ≡ BotState.halted)
          × (w'.machine.manual_only ≡ any is_manual (fresh_by config 60 111_000 w))
          × (can_open_positions w'.machine ≡ false)))
    × (w'.active_codes ≡ codes_of (found_by config 60 111_000 w))
    × (w'.kills ≡ w.kills)
check_once-halt_example =
    check_once-halt config render 60 111_000 (some (some true)) (world BotState.live) refl

recovery_blockers-check_once_example :
    check_once config render 60 101_000 none
      (record (world BotState.halted) { machine = machine BotState.paper })
    ≡ record (world BotState.halted) {
      machine = machine BotState.paper;
      last_anomalies = [];
      active_codes = [];
    }
recovery_blockers-check_once_example =
    recovery_blockers-check_once config render 60 101_000 none (world BotState.halted)
      (machine BotState.paper) blockers
