-- ===== src/Lifecycle/Machine/Tests.antt =====
-- The state machine on concrete calls, and the theorems about it at concrete machines.
use claude_route.Base.{
  ◌≡◌, ◌≢◌, ◌⊎◌, arith, IsIn, refl, true, false, none, some, List, [], ◌∷◌, err,
}
use claude_route.Domain.Types.{BotState}
use claude_route.Lifecycle.Machine.{
  Machine, Options, TransitionError, LiveAuthorization, defaults, new, transition, halt,
}
use claude_route.Lifecycle.Machine.Invariant.{
  IsValid, MayMove, HasMoved, HasStayed, new-IsValid, transition-IsValid, transition_moves_iff,
}
use claude_route.Lifecycle.Machine.Paths.{
  Call, call, run, carried, kill_switch_holds, live_needs_authorization,
}

abbrev fresh : Machine
fresh = new BotState.disabled "init" false

abbrev stopped : Machine
stopped = new BotState.halted "stop" true

abbrev killed : Machine
killed = new BotState.kill_switch "kill" true

abbrev dead : Machine
dead = new BotState.dead "gone" false

abbrev synced : Machine
synced = new BotState.syncing "sync" false

abbrev authorization : LiveAuthorization
authorization = record { policy_hash = "abc"; strategy_version = "v1"; issued_ms = 7; checks = [] }

abbrev go_live : Options
go_live = record defaults { live_authorization = some authorization }

abbrev calls : List Call
calls =
    Call.transition 1 BotState.initializing "a" defaults
    ∷ Call.transition 2 BotState.syncing "b" defaults
    ∷ Call.transition 3 BotState.live "c" go_live
    ∷ Call.halt 4 "d" true "watchdog" none
    ∷ Call.transition 5 BotState.syncing "e" defaults
    ∷ []

abbrev automatic : List Call
automatic =
    Call.transition 1 BotState.syncing "a" defaults ∷ Call.halt 2 "b" false "watchdog" none ∷ []

run-calls : (run fresh calls).state ≡ BotState.halted
unfolding run call transition halt new
run-calls = refl

transition-IsValid_example : IsValid (transition 5 BotState.initializing "go" defaults fresh).1
transition-IsValid_example =
    transition-IsValid 5 BotState.initializing "go" defaults fresh (new-IsValid "init")

transition_moves_iff_example :
    let r = transition 5 BotState.live "go" go_live synced in
    (MayMove BotState.live go_live synced × HasMoved BotState.live "go" go_live synced r)
    ⊎ ((MayMove BotState.live go_live synced → ⊥) × HasStayed synced r)
transition_moves_iff_example = transition_moves_iff 5 BotState.live "go" go_live synced

refused :
    (transition 5 BotState.syncing "go" defaults stopped).0 ≡ err TransitionError.operator_required
unfolding transition new
refused = refl

state-dead : dead.state ≡ BotState.dead
unfolding new
state-dead = refl

state-killed : killed.state ≡ BotState.kill_switch
unfolding new
state-killed = refl

kill_switch_holds_example : (run killed automatic).state ≡ BotState.kill_switch
kill_switch_holds_example = kill_switch_holds killed automatic state-killed refl

stuck : (stopped.state ≡ BotState.halted) × (stopped.manual_only ≡ true)
unfolding new
stuck = (refl, refl)

abbrev to_live : List Call
to_live = Call.transition 3 BotState.live "c" go_live ∷ []

synced-elsewhere : synced.state ≢ BotState.live
unfolding new
synced-elsewhere = ground arith

state-run : (run synced to_live).state ≡ BotState.live
unfolding new run call transition
state-run = refl

live_needs_authorization_example :
    (a : LiveAuthorization) × ((run synced to_live).live_auth ≡ some a)
    × ((c : Call) × IsIn c to_live × (carried c ≡ some a))
live_needs_authorization_example =
    live_needs_authorization synced to_live synced-elsewhere state-run
