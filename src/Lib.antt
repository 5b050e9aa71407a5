-- ===== src/Lib.antt =====
-- The trading bot of src/polymarket_bot: it proposes trades on short binary markets, has each of them
-- approved by a deterministic risk engine, submits it, books the fills, and stops itself through a
-- state machine and a kill switch. This library models those parts of the bot and proves what they
-- promise.
--
-- Files, each with the part of src/polymarket_bot that it models:
--   Base        helpers: lists, signed integers, dicts as association lists, results
--   Domain      domain/: the enums, orders, fills, markets and decisions
--   Lifecycle   lifecycle/: Machine is state_machine.py, KillSwitch is kill_switch.py with its row of
--               storage/sqlite_store.py, Journal is halt_journal.py
--   Portfolio   portfolio/portfolio.py: State holds its records, Portfolio fills, settlement and marks
--   Risk        risk/ and config/risk_policy.py: Ticks, Policy (with the hard caps), Views, Loss,
--               Sizing, Entry and Exit (evaluate_entry, evaluate_exit), Rates
--   Execution   execution/engine.py with the tables orders and fills of storage/sqlite_store.py:
--               Submit (build_intent, execute), Events (fills and updates), Resolve (restart and
--               unknown orders)
--   Promotion   promotion/: Gates is gates.py, LiveLock is live_lock.py
--   Audit       audit/audit_log.py, with redact_obj of security/redaction.py
--   Book        market/orderbook.py; Snapshot is OrderBookSnapshot of domain/market.py
--   Exits       exits/engine.py
--   Paper       adapters/paper_exchange.py; Fills holds its loops and taker_fee of domain/market.py
--   Llm         llm/: Budget is budget.py, Reviewer is reviewer.py with tighten_candidate of schemas.py
--   Watchdog    watchdog/: Health is health.py, Watchdog is watchdog.py, Stall its
--               LoopStallDetector
--   Reconciliation  reconciliation/reconciler.py
--   Replay      data/replay.py with RawMessage of ports.py; Engine is run_replay of
--               app/replay_engine.py, as the events that reach the pipeline; Clock is SimulatedClock of
--               domain/clock.py
--
-- A method is a function from the object's state to its result and the new state. A raise is a value
-- beside the state as it was left: `Result` or, where the kind does not matter, `Option`. The clock,
-- fresh ids, and what a provider or a file system answers are arguments. Modules named for a property
-- hold the proofs; Tests modules hold runs and the theorems at concrete inputs.
--
-- How the parts meet: the risk engine's decision (Risk.Entry, Risk.Exit) is what
-- Execution.Submit.build_intent turns into an order; a fill that Execution.Events applies is what the
-- portfolio books; the kill switch drives the state machine, whose changes the halt journal is told of;
-- the live lock gives the authorization that the state machine asks for on the way to LIVE; and the
-- reconciliation's report is one of the things that an entry is checked for. A book's snapshot is what
-- the paper exchange matches against; the exit engine's signal is what Risk.Exit decides on; the
-- reviewer hands a candidate, as it came or tightened, to Risk.Entry; the watchdog halts the state
-- machine, and says when nothing blocks its recovery. The audit log's hash is a parameter: what is
-- proved of tampering holds where no two different records of the files have the same hash.
--
-- Numbers: a price counts 0.0001, the least tick; shares count 0.000001 and USD amounts 1e-10, the
-- quantum of the accounting, so that price times shares is exact. Cash and profits are signed. Floats
-- are only compared, and count units of 2^-1074. Quotients that the code compares are multiplied out,
-- which leaves out their rounding to 28 digits; the one rounding that the accounting keeps is
-- Portfolio.Rounding. The exit engine works in units of 1e-28, in which its sums are exact for the fee exponents 0, 1
-- and 2. All loops are structural but the ticks of a replay, whose fuel is the
-- distance to the bound: the interval is positive, so each tick takes at least one of it.
--
-- A session's lines come as read: what json.loads and int make of them is the input of Replay, which
-- keeps neither the monotonic time nor the metadata of a message.
--
-- A write or a removal of a file is taken to succeed, but for the kill switch's sentinel when it is
-- written and the report of the stall detector: `reset` removes the sentinel, and the watchdog writes
-- its incident. `update_order` changes the rows that are there, where the source raises a KeyError if
-- there is none.
--
-- Not modelled: the market feeds, the hub that routes them to the books, the reference prices,
-- and the cycle that calls all parts; network clients, the command line,
-- logging and reports, which are I/O; the research code, and the strategy's floating-point statistics;
-- of the state store, what the parts above do not write.
mod Base
pub mod Domain
pub mod Lifecycle
pub mod Audit
pub mod Book
pub mod Portfolio
pub mod Risk
pub mod Exits
pub mod Execution
pub mod Paper
pub mod Llm
pub mod Watchdog
pub mod Promotion
pub mod Reconciliation
pub mod Replay
