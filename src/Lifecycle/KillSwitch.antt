-- ===== src/Lifecycle/KillSwitch.antt =====
-- `KillSwitch` of src/polymarket_bot/lifecycle/kill_switch.py, with the row of the state database
-- that it writes (`set_kill_switch`, `kill_switch_state` in storage/sqlite_store.py), the sentinel
-- file, and what it appends to the audit log and to the incidents.
pub mod Laws
mod Tests
use claude_route.Base.{
  ℕ, String, Bool, true, false, not, ◌||◌, Option, none, some, List, [], ◌∷◌, ◌++◌, is_some, ltb,
  str_eq, Result, ok, err, if◌then◌else◌,
}
use claude_route.Base.Text.{◌<>◌, count, decimal, strip}
use claude_route.Domain.Types.{BotState, same_state}
use claude_route.Domain.Json.{Json, Fields}
use claude_route.Lifecycle.Machine
use claude_route.Lifecycle.Machine.{Machine, TransitionError, Options, Outcome, defaults}

-- The one row of the table `kill_switch`.
pub record Row : Type 0 where
  pub engaged : Bool
  pub reason : String
  pub engaged_ms : Option ℕ
  pub reset_ms : Option ℕ
  pub reset_by : Option String

pub record Incident : Type 0 where
  pub ts_ms : ℕ
  pub severity : String
  pub kind : String
  pub body : Fields

pub record World : Type 0 where
  pub row : Option Row
  pub sentinel : Option String
  pub machine : Machine
  pub audit : List (String × Fields)
  pub incidents : List Incident

pub data KillSwitchError : Type 0 where
  wrong_phrase note_required operator_required : KillSwitchError
  transition_error : TransitionError → KillSwitchError

abbrev pub Action : Type 0
Action = World → Result KillSwitchError Unit × World

abbrev engaged_ms : Option Row → Option ℕ
engaged_ms none = none
engaged_ms (some r) = r.engaged_ms

-- `StateStore.set_kill_switch(engaged=True, ...)`
unfoldable pub store_engaged : String → ℕ → Option Row → Option Row
store_engaged reason ts row = some (record {
  engaged = true;
  reason = reason;
  engaged_ms = some ts;
  reset_ms = none;
  reset_by = none;
})

-- `StateStore.set_kill_switch(engaged=False, ...)` keeps the time of the last engagement.
unfoldable pub store_reset : String → ℕ → String → Option Row → Option Row
store_reset reason ts operator row = some (record {
  engaged = false;
  reason = reason;
  engaged_ms = engaged_ms row;
  reset_ms = some ts;
  reset_by = some operator;
})

-- `StateStore.kill_switch_state`
unfoldable pub kill_switch_state : Option Row → Bool × String
kill_switch_state none = (false, "")
kill_switch_state (some r) = (r.engaged, r.reason)

unfoldable pub is_engaged : World → Bool
unfolding kill_switch_state
is_engaged w = (kill_switch_state w.row).0 || is_some w.sentinel

abbrev sentinel_reason : Option String → String
sentinel_reason none = ""
sentinel_reason (some text) =
    let stripped = strip text in if str_eq stripped "" then "sentinel file present" else stripped

unfoldable pub reason : World → String
unfolding kill_switch_state
reason w =
    let (engaged, why) = kill_switch_state w.row in
    if engaged then why else sentinel_reason w.sentinel

-- What a call of the state machine leaves behind, with the change that its listeners are given.
abbrev settle : World → Outcome → Result KillSwitchError Unit × World
settle w (ok c, m) = (ok tt, record w { machine = m })
settle w (err e, m) = (err (transition_error e), record w { machine = m })

abbrev cause : String → String → Fields
cause reason source =
    Fields.field "reason" (Json.text reason) (Fields.field "source" (Json.text source) Fields.end)

-- The arguments with which `engage` calls `transition`.
abbrev pub engage_options : String → String → Options
engage_options reason source = record defaults {
  manual_only = true;
  component = "kill_switch:" <> source;
  details = some (cause reason source);
}

-- `written` is false where writing the sentinel file raises `OSError`, which `engage` catches.
-- `later` is the clock when the machine reads it.
unfoldable pub engage : ℕ → ℕ → Bool → String → String → Action
unfolding store_engaged
engage now later written reason source w =
    let w' = record w {
      row = store_engaged (source <> ": " <> reason) now w.row;
      sentinel =
          if written
          then some (decimal now <> " " <> source <> ": " <> reason <> "\n")
          else w.sentinel;
      audit = w.audit ++ ("kill_switch_engaged", cause reason source) ∷ [];
      incidents =
          w.incidents
          ++ (record {
            ts_ms = now;
            severity = "critical";
            kind = "kill_switch";
            body = cause reason source;
          })
            ∷ [];
    } in
    if same_state w.machine.state BotState.kill_switch || same_state w.machine.state BotState.dead
    then (ok tt, w')
    else settle w' (
        Machine.transition later BotState.kill_switch ("kill switch: " <> reason)
          (engage_options reason source) w.machine)

unfoldable pub sync_from_persistence : ℕ → Action
unfolding is_engaged reason
sync_from_persistence now w =
    if is_engaged w
    then if same_state w.machine.state BotState.kill_switch
      then (ok tt, w)
      else settle w (
          Machine.transition now BotState.kill_switch ("kill switch persisted: " <> reason w)
            (record defaults { manual_only = true }) w.machine)
    else (ok tt, w)

abbrev pub reset_confirmation_phrase : String
reset_confirmation_phrase = "I-HAVE-INVESTIGATED-AND-ACCEPT-RESET"

-- What `reset` does behind its three tests.
commit_reset : ℕ → ℕ → String → String → Action
unfolding store_reset
commit_reset now later operator note w =
    let w' = record w {
      row = store_reset ("reset: " <> note) now operator w.row;
      sentinel = none;
      audit =
          w.audit
          ++ (
            "kill_switch_reset",
            Fields.field "operator" (Json.text operator)
                (Fields.field "note" (Json.text note) Fields.end),
          )
            ∷ [];
    } in
    if same_state w.machine.state BotState.kill_switch
    then settle w' (
        Machine.transition later BotState.disabled ("kill switch reset by " <> operator)
          (record defaults { manual = true }) w.machine)
    else (ok tt, w')

unfoldable pub reset : ℕ → ℕ → String → String → String → Action
unfolding commit_reset
reset now later operator confirmation note w =
    if not (str_eq confirmation reset_confirmation_phrase)
    then (err wrong_phrase, w)
    else if ltb (count (strip note)) 10
    then (err note_required, w)
    else if str_eq (strip operator) ""
    then (err operator_required, w)
    else commit_reset now later operator note w
