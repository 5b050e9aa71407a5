-- ===== src/Lifecycle/Journal.antt =====
-- `HaltJournal` of src/polymarket_bot/lifecycle/halt_journal.py, a listener of the state machine.
-- The open record is the very object at the end of `history`, so `is_open` says whether there is
-- one, and a write to it shows in `history`; `audit.append` writes a copy. `history` is newest
-- first.
mod Category
pub mod Trace
mod Tests
unfoldable pub use Category.{halt_category}
use mathlib.Core.List.{Memᴰ}
use claude_route.Base.{
  ℕ, suc, ◌≡◌, String, Bool, true, false, ◌&&◌, Option, none, some, List, [], ◌∷◌, if◌then◌else◌,
}
use claude_route.Base.Int.{ℤ, sub_ℕ}
use claude_route.Base.Text.{◌<>◌, decimal}
use claude_route.Domain.Types.{BotState, same_state}
use claude_route.Domain.Json.{Fields}
use claude_route.Lifecycle.Machine.{StateChange, is_halt_state}

pub record HaltRecord : Type 0 where
  pub halt_id : String
  pub at_ms : ℕ
  pub from_state : BotState
  pub to_state : BotState
  pub cause : String
  pub component : String
  pub category : String
  pub condition : Option Fields
  pub manual_only : Bool
  pub supersedes : Option String
  pub recovery_started_ms : Option ℕ
  pub recovered_ms : Option ℕ
  pub downtime_ms : Option ℤ

-- What the three audit events hold; the last two copy four fields of the halt that they close.
pub data Entry : Type 0 where
  halt : HaltRecord → Entry
  recovery_started :
      (halt_id halt_cause halt_component : String) (halted_at_ms : ℕ) (halted_for_ms : ℤ)
      (change : StateChange)
      → Entry
  recovered :
      (halt_id halt_cause halt_component : String) (halted_at_ms recovered_ms : ℕ) (downtime_ms : ℤ)
      (to_state : BotState)
      → Entry

-- `audit` is the audit log's part that the journal writes, newest first.
pub record Journal : Type 0 where
  pub seq : ℕ
  pub is_open : Bool
  pub history : List HaltRecord
  pub audit : List Entry

abbrev pub history_kept : ℕ
history_kept = 50

-- `deque(maxlen=HISTORY_KEPT)`: the oldest entry goes
abbrev pub take : ℕ → List HaltRecord → List HaltRecord
take ℕ.zero l = []
take (suc n) [] = []
take (suc n) (r ∷ l) = r ∷ take n l

unfoldable pub new : Journal
new = record { seq = 0; is_open = false; history = []; audit = [] }

abbrev pub supersedes : Bool → List HaltRecord → Option String
supersedes true (r ∷ l) = some r.halt_id
supersedes _ _ = none

-- `_on_halt`
unfoldable pub on_halt : StateChange → Journal → Journal
on_halt c j =
    let rec : HaltRecord = record {
      halt_id = "halt-" <> decimal c.ts_ms <> "-" <> decimal (suc j.seq);
      at_ms = c.ts_ms;
      from_state = c.from_state;
      to_state = c.to_state;
      cause = c.reason;
      component = c.component;
      category = halt_category c;
      condition = c.details;
      manual_only = c.manual_only;
      supersedes = supersedes j.is_open j.history;
      recovery_started_ms = none;
      recovered_ms = none;
      downtime_ms = none;
    } in
    record {
      seq = suc j.seq;
      is_open = true;
      history = take history_kept (rec ∷ j.history);
      audit = halt rec ∷ j.audit;
    }

unfoldable pub on_recovery_started : StateChange → List HaltRecord → Journal → Journal
on_recovery_started c [] j = j
on_recovery_started c (r ∷ l) j = record j {
  history = record r { recovery_started_ms = some c.ts_ms } ∷ l;
  audit =
      recovery_started r.halt_id r.cause r.component r.at_ms (sub_ℕ c.ts_ms r.at_ms) c ∷ j.audit;
}

unfoldable pub on_recovered : StateChange → List HaltRecord → Journal → Journal
on_recovered c [] j = j
on_recovered c (r ∷ l) j =
    let downtime = sub_ℕ c.ts_ms r.at_ms in
    record j {
      is_open = false;
      history = record r { recovered_ms = some c.ts_ms; downtime_ms = some downtime } ∷ l;
      audit = recovered r.halt_id r.cause r.component r.at_ms c.ts_ms downtime c.to_state ∷ j.audit;
    }

abbrev pub is_trading : BotState → Bool
is_trading BotState.paper = true
is_trading BotState.live = true
is_trading _ = false

-- `__call__`
unfoldable pub notify : StateChange → Journal → Journal
notify c j =
    if is_halt_state c.to_state
    then on_halt c j
    else if same_state c.from_state BotState.halted && j.is_open
    then on_recovery_started c j.history j
    else if is_trading c.to_state && j.is_open
    then on_recovered c j.history j
    else j

-- The journal after a sequence of changes, oldest first.
unfoldable pub replay : Journal → List StateChange → Journal
replay j [] = j
replay j (c ∷ cs) = replay (notify c j) cs
