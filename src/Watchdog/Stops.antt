-- ===== src/Watchdog/Stops.antt =====
-- What a round of the watchdog of src/polymarket_bot/watchdog/watchdog.py does to a bot that
-- trades, and to one that resumes.
use claude_route.Base.{
  ℕ, ◌≡◌, refl, ◌∙◌, Bool, true, false, not, ◌&&◌, String, Option, none, some, List, [], ◌∷◌, ◌++◌,
  ◌⊎◌, inl, inr, any, any-append, any-filter, filter, is_empty, if◌then◌else◌, if_keeps, Bool-cases,
  arith,
}
use claude_route.Base.Int.{ℤ}
use claude_route.Domain.Types.{BotState}
use claude_route.Domain.Json.{Fields}
use claude_route.Lifecycle.Machine.{Machine, can_open_positions, transition, halt}
use claude_route.Watchdog.Health.{HealthSnapshot, snapshot}
use claude_route.Watchdog.{
  WatchdogConfig, Code, Anomaly, World, halt_recoverable, halt_manual, exceeds, clock_drift,
  reconciliation_mismatch, drifts, event_loop_stall, anomaly_if, stream_anomalies, drift_anomalies,
  reconciliation_anomalies, data_anomalies, evaluate, is_kill, is_manual, is_new, trading_active,
  stop, cancel, check_once, recovery_blockers, codes_of,
}

abbrev NoKill : List Anomaly → Type 0
NoKill found = any is_kill found ≡ false

append-NoKill : (xs ys : List Anomaly) → NoKill xs → NoKill ys → NoKill (xs ++ ys)
append-NoKill xs ys h k = ground (arith, any-append is_kill xs ys)

recoverable-NoKill : (b : Bool) (c : Code) → NoKill (anomaly_if b c halt_recoverable)
recoverable-NoKill true c = refl
recoverable-NoKill false c = refl

manual-NoKill : (b : Bool) (c : Code) → NoKill (anomaly_if b c halt_manual)
manual-NoKill true c = refl
manual-NoKill false c = refl

stream-NoKill : (b c : Bool) (d q : Code) → NoKill (stream_anomalies b c d q)
stream-NoKill false c d q = refl
stream-NoKill true c d q = recoverable-NoKill c q

drift-NoKill : (limit : ℕ) (drift : Option ℤ) → NoKill (drift_anomalies limit drift)
drift-NoKill limit none = refl
drift-NoKill limit (some d) = manual-NoKill (drifts limit d) clock_drift

reconciliation-NoKill : (stale good : Bool) → NoKill (reconciliation_anomalies stale good)
reconciliation-NoKill true good = refl
reconciliation-NoKill false good = manual-NoKill (not good) reconciliation_mismatch

data_anomalies-NoKill : (cfg : WatchdogConfig) (h : HealthSnapshot) → NoKill (data_anomalies cfg h)
unfolding data_anomalies
data_anomalies-NoKill cfg h =
    simp (any-append, stream-NoKill, drift-NoKill, reconciliation-NoKill, manual-NoKill)

-- No anomaly has the severity that trips the kill switch.
evaluate_never_kills :
    (cfg : WatchdogConfig) (trading force : Bool) (h : HealthSnapshot)
    → any is_kill (evaluate cfg trading force h) ≡ false
unfolding evaluate
evaluate_never_kills cfg trading force h =
    append-NoKill (anomaly_if (exceeds h.loop_beat_age cfg.loop_stall) event_loop_stall halt_manual)
      (if not force && not trading then [] else data_anomalies cfg h)
      (manual-NoKill (exceeds h.loop_beat_age cfg.loop_stall) event_loop_stall)
      (if_keeps NoKill (not force && not trading) refl (data_anomalies-NoKill cfg h))

halt_trading :
    (now : ℕ) (reason : String) (manual : Bool) (details : Option Fields) (m : Machine)
    → trading_active m ≡ true
    → let m' = (halt now reason manual "watchdog" details m).1 in
      (m'.state ≡ BotState.halted) × (m'.manual_only ≡ manual) × (can_open_positions m' ≡ false)
unfolding halt transition can_open_positions
halt_trading now reason manual details m h = ground arith

cancel_keeps :
    (wanted : Bool) (cancel_all : Option (Option Bool)) (found : List Anomaly) (w : World)
    → ((cancel wanted cancel_all found w).machine ≡ w.machine)
      × ((cancel wanted cancel_all found w).kills ≡ w.kills)
      × ((cancel wanted cancel_all found w).active_codes ≡ w.active_codes)
unfolding cancel
cancel_keeps wanted none found w = (refl, refl, refl)
cancel_keeps wanted (some none) found w = ground arith
cancel_keeps wanted (some (some true)) found w = (refl, refl, refl)
cancel_keeps wanted (some (some false)) found w = ground arith

stop_keeps_kills :
    (render : Anomaly → String) (now : ℕ) (found : List Anomaly) (w : World)
    → any is_kill found ≡ false
    → ((stop render now found w).kills ≡ w.kills)
      × ((stop render now found w).active_codes ≡ w.active_codes)
unfolding stop
stop_keeps_kills render now found w h = ground arith

stop_halts :
    (render : Anomaly → String) (now : ℕ) (found : List Anomaly) (w : World)
    → any is_kill found ≡ false
    → trading_active w.machine ≡ true
    → let m' = (stop render now found w).machine in
      (m'.state ≡ BotState.halted)
      × (m'.manual_only ≡ any is_manual found)
      × (can_open_positions m' ≡ false)
unfolding stop
stop_halts render now found w h t =
    rw (h, t) (halt_trading now _ (any is_manual found) _ w.machine t)

act_halts :
    (wanted : Bool) (cancel_all : Option (Option Bool)) (render : Anomaly → String) (now : ℕ)
    (found : List Anomaly) (w : World)
    → any is_kill found ≡ false
    → trading_active w.machine ≡ true
    → let w' = cancel wanted cancel_all found (stop render now found w) in
      ((w'.machine.state ≡ BotState.halted)
        × (w'.machine.manual_only ≡ any is_manual found)
        × (can_open_positions w'.machine ≡ false))
      × (w'.active_codes ≡ w.active_codes)
      × (w'.kills ≡ w.kills)
act_halts wanted cancel_all render now found w calm trading =
    let (machine, kills, codes) = cancel_keeps wanted cancel_all found (stop render now found w) in
    let kept = stop_keeps_kills render now found w calm in
    (rw machine (stop_halts render now found w calm trading), codes ∙ kept.1, kills ∙ kept.0)

-- The anomalies of a round, and those whose code the round before did not have.
abbrev pub found_by : WatchdogConfig → ℕ → ℕ → World → List Anomaly
found_by cfg monotonic now w =
    evaluate cfg (trading_active w.machine) false (snapshot monotonic now w.registry)

abbrev pub fresh_by : WatchdogConfig → ℕ → ℕ → World → List Anomaly
fresh_by cfg monotonic now w = filter (is_new w.active_codes) (found_by cfg monotonic now w)

-- While the bot trades, a round with an anomaly whose code is new halts it, whatever becomes of
-- the open orders: the machine is HALTED, no position can be opened, and the halt waits for an
-- operator exactly where one of the new anomalies asks for that. A round with none leaves the
-- machine as it is. Either way the codes of the round are remembered, and the kill switch is not
-- called.
pub check_once-halt :
    (cfg : WatchdogConfig) (render : Anomaly → String) (monotonic now : ℕ)
    (cancel_all : Option (Option Bool)) (w : World)
    → trading_active w.machine ≡ true
    → let w' = check_once cfg render monotonic now cancel_all w in
      (((is_empty (fresh_by cfg monotonic now w) ≡ true) × (w'.machine ≡ w.machine))
        ⊎ ((is_empty (fresh_by cfg monotonic now w) ≡ false)
            × (w'.machine.state ≡ BotState.halted)
            × (w'.machine.manual_only ≡ any is_manual (fresh_by cfg monotonic now w))
            × (can_open_positions w'.machine ≡ false)))
      × (w'.active_codes ≡ codes_of (found_by cfg monotonic now w))
      × (w'.kills ≡ w.kills)
unfolding check_once
check_once-halt cfg render monotonic now cancel_all w trading =
    let found = found_by cfg monotonic now w in
    let fresh = fresh_by cfg monotonic now w in
    let w' : World = record w { last_anomalies = found; active_codes = codes_of found } in
    let calm = any-filter is_kill (is_new w.active_codes) found (
      evaluate_never_kills cfg (trading_active w.machine) false
        (snapshot monotonic now w.registry)) in
    elim (Bool-cases (is_empty fresh)) [
      | inl e ↦ rw e (inl (refl, refl), refl, refl)
      | inr e ↦
          let (halted, codes, kills) =
            act_halts cfg.cancel_orders_on_halt cancel_all render now fresh w' calm trading in
          rw e (inr (refl, halted.0, halted.1, halted.2), codes, kills)
    ]

append_empty_left : (xs ys : List Anomaly) → xs ++ ys ≡ [] → xs ++ [] ≡ []
append_empty_left [] ys h = refl
append_empty_left (x ∷ xs) ys h = ground arith

evaluate_subset :
    (cfg : WatchdogConfig) (trading trading' : Bool) (h : HealthSnapshot)
    → evaluate cfg trading true h ≡ []
    → evaluate cfg trading' false h ≡ []
unfolding evaluate
evaluate_subset cfg trading true h e = e
evaluate_subset cfg trading false h e =
    append_empty_left
      (anomaly_if (exceeds h.loop_beat_age cfg.loop_stall) event_loop_stall halt_manual)
      (data_anomalies cfg h) e

-- Resuming when nothing blocks the recovery is not followed by a halt: where `recovery_blockers`
-- finds nothing, a round of the watchdog at the same time finds nothing either, whatever state the
-- machine was brought into, leaves that machine as it is, and forgets the codes of the halt, so
-- that each of them counts as new when it comes back.
pub recovery_blockers-check_once :
    (cfg : WatchdogConfig) (render : Anomaly → String) (monotonic now : ℕ)
    (cancel_all : Option (Option Bool)) (w : World) (m : Machine)
    → recovery_blockers cfg monotonic now w ≡ []
    → check_once cfg render monotonic now cancel_all (record w { machine = m })
      ≡ record w { machine = m; last_anomalies = []; active_codes = [] }
unfolding check_once recovery_blockers
recovery_blockers-check_once cfg render monotonic now cancel_all w m h =
    rw
      (evaluate_subset cfg (trading_active w.machine) (trading_active m)
        (snapshot monotonic now w.registry) h)
      refl
