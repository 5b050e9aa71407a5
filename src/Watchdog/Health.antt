-- ===== src/Watchdog/Health.antt =====
-- `HealthRegistry` and `HealthSnapshot` of src/polymarket_bot/watchdog/health.py. Times of data are
-- milliseconds; the beat of the event loop counts the unit of `time.monotonic`, and its age is
-- exact. The lock makes each call atomic.
use claude_route.Base.{
  ℕ, suc, ◌-◌, String, Bool, false, ◌||◌, Option, none, some, [], ◌∷◌, ltb, str_eq, if◌then◌else◌,
}
use claude_route.Base.Int.{ℤ}
use claude_route.Base.Dict.{Dict, insert}

pub record HealthRegistry : Type 0 where
  pub loop_beat : Option ℕ
  pub market_connected : Bool
  pub market_last : Option ℕ
  pub ref_connected : Bool
  pub ref_last : Option ℕ
  pub market_heartbeat : Option ℕ
  pub market_book : Option ℕ
  pub market_price : Option ℕ
  pub ref_heartbeat : Option ℕ
  pub ref_series : Dict ℕ
  pub recon_ms : Option ℕ
  pub recon_ok : Bool
  pub drift : Option ℤ
  pub unknown_orders : ℕ
  pub exceptions : ℕ
  pub last_decision : Option ℕ
  pub last_pnl : Option ℕ
  pub extra : Dict String

unfoldable pub new : HealthRegistry
new = record {
  loop_beat = none;
  market_connected = false;
  market_last = none;
  ref_connected = false;
  ref_last = none;
  market_heartbeat = none;
  market_book = none;
  market_price = none;
  ref_heartbeat = none;
  ref_series = [];
  recon_ms = none;
  recon_ok = false;
  drift = none;
  unknown_orders = 0;
  exceptions = 0;
  last_decision = none;
  last_pnl = none;
  extra = [];
}

-- `new` where it is given, what is there otherwise
abbrev pub latest : Option ℕ → Option ℕ → Option ℕ
latest none old = old
latest (some ms) old = some ms

abbrev pub beat_loop : ℕ → HealthRegistry → HealthRegistry
beat_loop monotonic r = record r { loop_beat = some monotonic }

abbrev pub market_stream : Bool → Option ℕ → HealthRegistry → HealthRegistry
market_stream connected msg_ms r = record r {
  market_connected = connected;
  market_last = latest msg_ms r.market_last;
}

abbrev pub market_heartbeat : ℕ → HealthRegistry → HealthRegistry
market_heartbeat ts_ms r = record r { market_heartbeat = some ts_ms }

abbrev pub market_book_event : ℕ → HealthRegistry → HealthRegistry
market_book_event ts_ms r = record r { market_book = some ts_ms }

abbrev pub market_price_event : ℕ → HealthRegistry → HealthRegistry
market_price_event ts_ms r = record r { market_price = some ts_ms }

abbrev pub reference_stream : Bool → Option ℕ → HealthRegistry → HealthRegistry
reference_stream connected msg_ms r = record r {
  ref_connected = connected;
  ref_last = latest msg_ms r.ref_last;
}

abbrev pub reference_heartbeat : ℕ → HealthRegistry → HealthRegistry
reference_heartbeat ts_ms r = record r { ref_heartbeat = some ts_ms }

abbrev pub reference_event : String → ℕ → HealthRegistry → HealthRegistry
reference_event series ts_ms r = record r { ref_series = insert series ts_ms r.ref_series }

abbrev pub reconciliation : ℕ → Bool → HealthRegistry → HealthRegistry
reconciliation ts_ms good r = record r { recon_ms = some ts_ms; recon_ok = good }

abbrev pub clock_drift : Option ℤ → HealthRegistry → HealthRegistry
clock_drift drift_ms r = record r { drift = drift_ms }

abbrev pub unknown_orders : ℕ → HealthRegistry → HealthRegistry
unknown_orders count r = record r { unknown_orders = count }

abbrev pub exception : HealthRegistry → HealthRegistry
exception r = record r { exceptions = suc r.exceptions }

abbrev pub decision : ℕ → HealthRegistry → HealthRegistry
decision ts_ms r = record r { last_decision = some ts_ms }

abbrev pub pnl_update : ℕ → HealthRegistry → HealthRegistry
pnl_update ts_ms r = record r { last_pnl = some ts_ms }

abbrev pub note : String → String → HealthRegistry → HealthRegistry
note key value r = record r { extra = insert key value r.extra }

pub record HealthSnapshot : Type 0 where
  pub now_ms : ℕ
  pub loop_beat_age : Option ℕ
  pub market_stream_connected : Bool
  pub market_last_msg_ms : Option ℕ
  pub reference_stream_connected : Bool
  pub reference_last_msg_ms : Option ℕ
  pub last_reconciliation_ms : Option ℕ
  pub last_reconciliation_ok : Bool
  pub clock_drift_ms : Option ℤ
  pub unknown_orders : ℕ
  pub unhandled_exceptions : ℕ
  pub last_decision_ms : Option ℕ
  pub last_pnl_update_ms : Option ℕ
  pub market_last_heartbeat_ms : Option ℕ
  pub market_last_book_event_ms : Option ℕ
  pub market_last_price_event_ms : Option ℕ
  pub reference_last_heartbeat_ms : Option ℕ
  pub reference_last_event_ms : Option ℕ
  pub reference_series_last_ms : Dict ℕ
  pub extra : Dict String

-- `SETTLEMENT_SERIES`
abbrev pub is_settlement_series : String → Bool
is_settlement_series k = str_eq k "spot" || str_eq k "twap60"

abbrev newest : ℕ → Option ℕ → ℕ
newest ms none = ms
newest ms (some other) = if ltb ms other then other else ms

-- `max((v for k, v in series.items() if k in SETTLEMENT_SERIES), default=None)`
abbrev pub last_settlement_event : Dict ℕ → Option ℕ
last_settlement_event [] = none
last_settlement_event ((k, ms) ∷ d) =
    let rest = last_settlement_event d in
    if is_settlement_series k then some (newest ms rest) else rest

abbrev age_of : ℕ → Option ℕ → Option ℕ
age_of monotonic none = none
age_of monotonic (some beat) = some (monotonic - beat)

unfoldable pub snapshot : ℕ → ℕ → HealthRegistry → HealthSnapshot
snapshot monotonic now_ms r = record {
  now_ms = now_ms;
  loop_beat_age = age_of monotonic r.loop_beat;
  market_stream_connected = r.market_connected;
  market_last_msg_ms = r.market_last;
  reference_stream_connected = r.ref_connected;
  reference_last_msg_ms = r.ref_last;
  last_reconciliation_ms = r.recon_ms;
  last_reconciliation_ok = r.recon_ok;
  clock_drift_ms = r.drift;
  unknown_orders = r.unknown_orders;
  unhandled_exceptions = r.exceptions;
  last_decision_ms = r.last_decision;
  last_pnl_update_ms = r.last_pnl;
  market_last_heartbeat_ms = r.market_heartbeat;
  market_last_book_event_ms = r.market_book;
  market_last_price_event_ms = r.market_price;
  reference_last_heartbeat_ms = r.ref_heartbeat;
  reference_last_event_ms = last_settlement_event r.ref_series;
  reference_series_last_ms = r.ref_series;
  extra = r.extra;
}
