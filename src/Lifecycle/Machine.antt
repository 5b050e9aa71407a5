-- ===== src/Lifecycle/Machine.antt =====
-- `BotStateMachine` of src/polymarket_bot/lifecycle/state_machine.py. A method takes the machine
-- and returns its result beside the machine as it stands afterwards, also after a raise. Listeners
-- are called with the `StateChange` that a transition returns; the lock makes each call atomic.
pub mod Invariant
pub mod Paths
mod Tests
use claude_route.Base.{
  ℕ, String, Bool, true, false, not, ◌&&◌, ◌||◌, Option, none, some, List, [], ◌∷◌, is_some, any,
  Result, ok, err, if◌then◌else◌,
}
use claude_route.Domain.Types.{BotState, same_state}
use claude_route.Domain.Json.{Fields}

-- `LiveAuthorization`: only the live lock makes one, so the token that its constructor checks
-- is the module that declares `evaluate_live_lock`.
pub record LiveAuthorization : Type 0 where
  pub policy_hash : String
  pub strategy_version : String
  pub issued_ms : ℕ
  pub checks : List String

pub record StateChange : Type 0 where
  pub from_state : BotState
  pub to_state : BotState
  pub reason : String
  pub manual_only : Bool
  pub ts_ms : ℕ
  pub component : String
  pub details : Option Fields

-- What `TransitionError` is raised for.
pub data TransitionError : Type 0 where
  illegal manual_reset_required operator_required authorization_required : TransitionError

pub record Machine : Type 0 where
  pub state : BotState
  pub reason : String
  pub manual_only : Bool
  pub live_auth : Option LiveAuthorization

-- The arguments of `transition` behind `target` and `reason`.
pub record Options : Type 0 where
  pub manual : Bool
  pub manual_only : Bool
  pub live_authorization : Option LiveAuthorization
  pub component : String
  pub details : Option Fields

abbrev pub defaults : Options
defaults = record {
  manual = false;
  manual_only = false;
  live_authorization = none;
  component = "lifecycle";
  details = none;
}

abbrev pub allowed_transitions : BotState → List BotState
allowed_transitions BotState.disabled =
    BotState.initializing ∷ BotState.kill_switch ∷ BotState.dead ∷ []
allowed_transitions BotState.initializing =
    BotState.syncing ∷ BotState.halted ∷ BotState.disabled ∷ BotState.kill_switch ∷ BotState.dead
    ∷ []
allowed_transitions BotState.syncing =
    BotState.paper ∷ BotState.live ∷ BotState.halted ∷ BotState.disabled ∷ BotState.kill_switch
    ∷ BotState.dead ∷ []
allowed_transitions BotState.paper =
    BotState.halted ∷ BotState.syncing ∷ BotState.disabled ∷ BotState.kill_switch ∷ BotState.dead
    ∷ []
allowed_transitions BotState.live =
    BotState.halted ∷ BotState.syncing ∷ BotState.disabled ∷ BotState.kill_switch ∷ BotState.dead
    ∷ []
allowed_transitions BotState.halted =
    BotState.syncing ∷ BotState.disabled ∷ BotState.kill_switch ∷ BotState.dead ∷ []
allowed_transitions BotState.kill_switch = BotState.disabled ∷ BotState.dead ∷ []
allowed_transitions BotState.dead = []

abbrev pub is_halt_state : BotState → Bool
is_halt_state s = same_state s BotState.halted || same_state s BotState.kill_switch

-- `__init__`
unfoldable pub new : BotState → String → Bool → Machine
new initial initial_reason manual_only = record {
  state = initial;
  reason = initial_reason;
  manual_only = manual_only;
  live_auth = none;
}

unfoldable pub can_open_positions : Machine → Bool
can_open_positions m = same_state m.state BotState.paper || same_state m.state BotState.live

unfoldable pub is_live : Machine → Bool
is_live m = same_state m.state BotState.live && is_some m.live_auth

-- Already there: a halt may become manual, never the other way.
abbrev escalate : BotState → Bool → Machine → Machine
escalate target manual_only m =
    if is_halt_state target && manual_only then record m { manual_only = true } else m

-- The four tests that raise, in their order.
abbrev pub refusal : BotState → Options → Machine → Option TransitionError
refusal target o m =
    if not (any (same_state target) (allowed_transitions m.state))
    then some TransitionError.illegal
    else if same_state m.state BotState.kill_switch && not o.manual
    then some TransitionError.manual_reset_required
    else if same_state m.state BotState.halted && m.manual_only && not o.manual
    then some TransitionError.operator_required
    else if same_state target BotState.live && not (is_some o.live_authorization)
    then some TransitionError.authorization_required
    else none

-- The assignments of a transition that goes through.
abbrev pub enter : BotState → String → Options → Machine
enter target reason o = record {
  state = target;
  reason = reason;
  manual_only =
      if same_state target BotState.kill_switch
      then true
      else if is_halt_state target
      then o.manual_only
      else false;
  live_auth = if same_state target BotState.live then o.live_authorization else none;
}

abbrev pub Outcome : Type 0
Outcome = Result TransitionError (Option StateChange) × Machine

abbrev pub commit : Option TransitionError → ℕ → BotState → String → Options → Machine → Outcome
commit (some e) now target reason o m = (err e, m)
commit none now target reason o m =
    let m' = enter target reason o in
    (
      ok (
          some (record {
            from_state = m.state;
            to_state = target;
            reason = reason;
            manual_only = m'.manual_only;
            ts_ms = now;
            component = o.component;
            details = o.details;
          })),
      m',
    )

unfoldable pub transition : ℕ → BotState → String → Options → Machine → Outcome
transition now target reason o m =
    if same_state target m.state
    then (ok none, escalate target o.manual_only m)
    else commit (refusal target o m) now target reason o m

abbrev halts_nothing : BotState → Bool
halts_nothing BotState.kill_switch = true
halts_nothing BotState.dead = true
halts_nothing BotState.disabled = true
halts_nothing _ = false

unfoldable pub halt : ℕ → String → Bool → String → Option Fields → Machine → Outcome
halt now reason manual_only component details m =
    if halts_nothing m.state
    then (ok none, m)
    else transition now BotState.halted reason
        (record defaults { manual_only = manual_only; component = component; details = details }) m
