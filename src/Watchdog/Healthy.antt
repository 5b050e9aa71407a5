-- ===== src/Watchdog/Healthy.antt =====
-- What the evaluator of src/polymarket_bot/watchdog/watchdog.py calls healthy, said without its
-- tests.
use claude_route.Base.{
  ℕ, ◌+◌, ◌-◌, ◌≤◌, ◌≡◌, refl, subst, Bool, true, false, not, ◌&&◌, Option, none, some, List, [],
  ◌∷◌, ◌++◌, ◌↔◌, is_empty, ltb, arith,
}
use claude_route.Base.Int.{ℤ, pos_part, neg_part}
use claude_route.Watchdog.Health.{HealthSnapshot}
use claude_route.Watchdog.{
  WatchdogConfig, halt_recoverable, halt_manual, event_loop_stall, market_stream_down,
  market_stream_silent, reference_stream_down, reference_stream_silent, clock_drift,
  reconciliation_mismatch, Severity, Code, Anomaly, anomaly_if, exceeds, silent, drifts,
  stream_anomalies, drift_anomalies, reconciliation_anomalies, data_anomalies, evaluate,
}

-- Something was seen, and not longer than `limit` ago.
abbrev pub Recent : ℕ → Option ℕ → ℕ → Type 0
Recent now last limit = (ms : ℕ) × (last ≡ some ms) × (now - ms ≤ limit)

-- The event loop is not late with its beat: it has not beaten yet, or not longer than `limit` ago.
abbrev pub NoLateBeat : Option ℕ → ℕ → Type 0
NoLateBeat none limit = Unit
NoLateBeat (some age) limit = age ≤ limit

-- The loop is not late, both streams are connected and bring data, the clock is measured and close to
-- the exchange's, the last reconciliation is recent and agreed, no order is in doubt and no
-- exception went unhandled.
abbrev pub IsHealthy : WatchdogConfig → HealthSnapshot → Type 0
IsHealthy cfg h =
    NoLateBeat h.loop_beat_age cfg.loop_stall
    × ((h.market_stream_connected ≡ true)
        × Recent h.now_ms h.market_last_book_event_ms cfg.max_market_data_silence_ms)
    × ((h.reference_stream_connected ≡ true)
        × Recent h.now_ms h.reference_last_event_ms cfg.max_reference_silence_ms)
    × ((d : ℤ) × (h.clock_drift_ms ≡ some d) × (pos_part d + neg_part d ≤ cfg.max_clock_drift_ms))
    × (Recent h.now_ms h.last_reconciliation_ms cfg.max_reconciliation_age_ms
        × (h.last_reconciliation_ok ≡ true))
    × (h.unknown_orders ≡ 0)
    × (h.unhandled_exceptions ≡ 0)

is_empty-append : (xs ys : List Anomaly) → is_empty (xs ++ ys) ≡ (is_empty xs && is_empty ys)
is_empty-append [] ys = refl
is_empty-append (x ∷ xs) ys = refl

is_empty-anomaly_if : (b : Bool) (c : Code) (s : Severity) → is_empty (anomaly_if b c s) ≡ not b
is_empty-anomaly_if true c s = refl
is_empty-anomaly_if false c s = refl

silent-Recent :
    (now : ℕ) (last : Option ℕ) (limit : ℕ)
    → (silent now last limit ≡ false) ↔ Recent now last limit
silent-Recent now none limit = (λ h. ground arith, λ h. ground arith)
silent-Recent now (some ms) limit = (λ h. (ms, refl, ground arith), λ h. ground arith)

exceeds-NoLateBeat :
    (age : Option ℕ) (limit : ℕ) → (exceeds age limit ≡ false) ↔ NoLateBeat age limit
exceeds-NoLateBeat none limit = (λ h. tt, λ h. refl)
exceeds-NoLateBeat (some age) limit = ground arith

stream_empty :
    (connected : Bool) (now : ℕ) (last : Option ℕ) (limit : ℕ) (down quiet : Code)
    → (is_empty (stream_anomalies connected (silent now last limit) down quiet) ≡ true)
      ↔ ((connected ≡ true) × Recent now last limit)
stream_empty false now last limit down quiet = (λ h. ground arith, λ h. ground arith)
stream_empty true now last limit down quiet =
    let quiet_if = is_empty-anomaly_if (silent now last limit) quiet halt_recoverable in
    (
      λ h. (refl, (silent-Recent now last limit).0 (ground (arith, quiet_if))),
      λ h. ground (arith, quiet_if, (silent-Recent now last limit).1 h.1),
    )

some_inj : {c d : ℤ} → ◌≡◌ {A = Option ℤ} (some c) (some d) → d ≡ c
some_inj h = cc

drift_empty :
    (limit : ℕ) (drift : Option ℤ)
    → (is_empty (drift_anomalies limit drift) ≡ true)
      ↔ ((d : ℤ) × (drift ≡ some d) × (pos_part d + neg_part d ≤ limit))
drift_empty limit none = (λ h. ground arith, λ h. ground arith)
drift_empty limit (some d) =
    let drift_if = is_empty-anomaly_if (drifts limit d) clock_drift halt_manual in
    (
      λ h. (d, refl, ground (arith, drift_if)),
      λ (e, f, le).
          ground (arith, drift_if, subst (λ x. pos_part x + neg_part x ≤ limit) (some_inj f) le),
    )

reconciliation_empty :
    (now : ℕ) (last : Option ℕ) (limit : ℕ) (good : Bool)
    → (is_empty (reconciliation_anomalies (silent now last limit) good) ≡ true)
      ↔ (Recent now last limit × (good ≡ true))
reconciliation_empty now last limit good =
    let wrong_if = is_empty-anomaly_if (not good) reconciliation_mismatch halt_manual in
    (
      λ h. ((silent-Recent now last limit).0 (ground (arith, wrong_if)), ground (arith, wrong_if)),
      λ h. ground (arith, wrong_if, (silent-Recent now last limit).1 h.0),
    )

data_empty :
    (cfg : WatchdogConfig) (h : HealthSnapshot)
    → is_empty (data_anomalies cfg h) ≡ (
        is_empty (
          stream_anomalies h.market_stream_connected
            (silent h.now_ms h.market_last_book_event_ms cfg.max_market_data_silence_ms)
            market_stream_down
            market_stream_silent)
        && is_empty (
            stream_anomalies h.reference_stream_connected
              (silent h.now_ms h.reference_last_event_ms cfg.max_reference_silence_ms)
              reference_stream_down
              reference_stream_silent)
        && is_empty (drift_anomalies cfg.max_clock_drift_ms h.clock_drift_ms)
        && is_empty (
            reconciliation_anomalies
              (silent h.now_ms h.last_reconciliation_ms cfg.max_reconciliation_age_ms)
              h.last_reconciliation_ok)
        && not (ltb 0 h.unknown_orders)
        && not (ltb 0 h.unhandled_exceptions))
unfolding data_anomalies
data_empty cfg h = simp (is_empty-append, is_empty-anomaly_if)

-- With the data checks on, the evaluator finds no anomaly exactly when all is healthy: the event
-- loop has not beaten yet or its last beat is within its limit; both streams are connected and have
-- brought an order-book event and a settlement price within their limits; the clock drift is known
-- and within its limit; the last reconciliation is recent and agreed; no order is in doubt and no
-- exception went unhandled.
pub evaluate-IsHealthy :
    (cfg : WatchdogConfig) (trading : Bool) (h : HealthSnapshot)
    → (is_empty (evaluate cfg trading true h) ≡ true) ↔ IsHealthy cfg h
unfolding evaluate
evaluate-IsHealthy cfg trading h =
    let loop =
      is_empty-append
        (anomaly_if (exceeds h.loop_beat_age cfg.loop_stall) event_loop_stall halt_manual)
        (data_anomalies cfg h) in
    let beat =
      is_empty-anomaly_if (exceeds h.loop_beat_age cfg.loop_stall) event_loop_stall halt_manual in
    let pieces = data_empty cfg h in
    let market =
      stream_empty h.market_stream_connected h.now_ms h.market_last_book_event_ms
        cfg.max_market_data_silence_ms market_stream_down market_stream_silent in
    let reference =
      stream_empty h.reference_stream_connected h.now_ms h.reference_last_event_ms
        cfg.max_reference_silence_ms reference_stream_down reference_stream_silent in
    let drift = drift_empty cfg.max_clock_drift_ms h.clock_drift_ms in
    let reconciled =
      reconciliation_empty h.now_ms h.last_reconciliation_ms cfg.max_reconciliation_age_ms
        h.last_reconciliation_ok in
    (
      λ e. (
        (exceeds-NoLateBeat h.loop_beat_age cfg.loop_stall).0 (ground (arith, loop, beat)),
        market.0 (ground (arith, loop, pieces)),
        reference.0 (ground (arith, loop, pieces)),
        drift.0 (ground (arith, loop, pieces)),
        reconciled.0 (ground (arith, loop, pieces)),
        ground (arith, loop, pieces),
        ground (arith, loop, pieces),
      ),
      λ (a, b, c, d, f, g, k).
          let a' = (exceeds-NoLateBeat h.loop_beat_age cfg.loop_stall).1 a in
          let b' = market.1 b in
          let c' = reference.1 c in
          let d' = drift.1 d in
          let f' = reconciled.1 f in ground (arith, loop, beat, pieces, a', b', c', d', f'),
    )
