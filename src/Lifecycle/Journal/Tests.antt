-- ===== src/Lifecycle/Journal/Tests.antt =====
-- The halt journal on a halt and the recovery from it.
use claude_route.Base.{◌≤◌, false, none, List, [], ◌∷◌, ℕ, length}
use claude_route.Domain.Types.{BotState}
use claude_route.Lifecycle.Machine.{StateChange}
use claude_route.Lifecycle.Journal.{new, replay, history_kept}
use claude_route.Lifecycle.Journal.Trace.{Explained, recoveries-Explained}

abbrev change : BotState → BotState → ℕ → StateChange
change s t now = record {
  from_state = s;
  to_state = t;
  reason = "stream down";
  manual_only = false;
  ts_ms = now;
  component = "watchdog";
  details = none;
}

abbrev changes : List StateChange
changes =
    change BotState.paper BotState.halted 10
    ∷ change BotState.halted BotState.syncing 20
    ∷ change BotState.syncing BotState.paper 30
    ∷ []

recoveries-Explained_example :
    Explained (replay new changes).audit × (length (replay new changes).history ≤ history_kept)
recoveries-Explained_example = recoveries-Explained changes
