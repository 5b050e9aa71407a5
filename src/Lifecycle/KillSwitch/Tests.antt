-- ===== src/Lifecycle/KillSwitch/Tests.antt =====
-- The kill switch on a concrete world.
use claude_route.Base.{◌≡◌, ◌≢◌, ◌⊎◌, refl, true, false, none, [], ok, err}
use claude_route.Domain.Types.{BotState}
use claude_route.Lifecycle.Machine.{Machine, TransitionError, new}
use claude_route.Lifecycle.KillSwitch.{
  World, transition_error, is_engaged, engage, reset, reset_confirmation_phrase,
}
use claude_route.Lifecycle.KillSwitch.Laws.{Acceptable, engage_raises_when_stuck, reset_outcome}

abbrev world : Machine → World
world m = record { row = none; sentinel = none; machine = m; audit = []; incidents = [] }

abbrev trading : World
trading = world (new BotState.paper "ready" false)

abbrev stopped : World
stopped = world (new BotState.halted "stop" true)

abbrev engaged : World
engaged = (engage 1 2 true "loss limit" "risk" trading).1

state-stopped : stopped.machine.state ≡ BotState.halted
unfolding new
state-stopped = refl

manual_only-stopped : stopped.machine.manual_only ≡ true
unfolding new
manual_only-stopped = refl

engage_raises_when_stuck_example :
    let (r, w') = engage 1 2 true "loss limit" "risk" stopped in
    (r ≡ err (transition_error TransitionError.operator_required))
    × (w'.machine ≡ stopped.machine)
    × (is_engaged w' ≡ true)
engage_raises_when_stuck_example =
    engage_raises_when_stuck 1 2 true "loss limit" "risk" stopped state-stopped manual_only-stopped

reset_outcome_example :
    let (r, w') = reset 3 4 "ann" reset_confirmation_phrase "all is checked" engaged in
    ((w' ≡ engaged)
      × (r ≢ ok tt)
      × (Acceptable "ann" reset_confirmation_phrase "all is checked" → ⊥))
    ⊎ (Acceptable "ann" reset_confirmation_phrase "all is checked"
        × (r ≡ ok tt)
        × (is_engaged w' ≡ false)
        × (((engaged.machine.state ≡ BotState.kill_switch) × (w'.machine.state ≡ BotState.disabled))
            ⊎ ((engaged.machine.state ≢ BotState.kill_switch) × (w'.machine ≡ engaged.machine))))
reset_outcome_example = reset_outcome 3 4 "ann" reset_confirmation_phrase "all is checked" engaged
