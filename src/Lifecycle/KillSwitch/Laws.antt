-- ===== src/Lifecycle/KillSwitch/Laws.antt =====
-- Proofs on `engage`, `reset` and `sync_from_persistence` of the kill switch.
use claude_route.Base.{ℕ, ◌≡◌, ◌≢◌, ◌⊎◌, String, Bool, true, false, arith, ok, err, ltb, str_eq}
use claude_route.Base.Text.{◌<>◌, count, strip}
use claude_route.Domain.Types.{BotState}
use claude_route.Lifecycle.Machine
use claude_route.Lifecycle.Machine.{Machine, TransitionError}
use claude_route.Lifecycle.KillSwitch.{
  World, transition_error, is_engaged, reason, engage, sync_from_persistence, reset,
  reset_confirmation_phrase,
}

-- After `engage` the switch is engaged for the reason given, whether or not the sentinel file
-- could be written, and also where the call ends in a raise.
pub engage_engages :
    (now later : ℕ) (written : Bool) (why source : String) (w : World)
    → let w' = (engage now later written why source w).1 in
      (is_engaged w' ≡ true) × (reason w' ≡ source <> ": " <> why)
unfolding engage is_engaged reason Machine.transition
engage_engages now later written why source w = ground arith

-- The states from which the machine follows `engage`: all but a HALTED that is marked manual.
abbrev pub Follows : Machine → Type 0
Follows m = (m.state ≢ BotState.halted) ⊎ (m.manual_only ≡ false)

-- From a HALTED marked manual, `engage` raises, and the machine stays in HALTED, although the
-- switch itself is engaged.
pub engage_raises_when_stuck :
    (now later : ℕ) (written : Bool) (why source : String) (w : World)
    → w.machine.state ≡ BotState.halted
    → w.machine.manual_only ≡ true
    → let (r, w') = engage now later written why source w in
      (r ≡ err (transition_error TransitionError.operator_required))
      × (w'.machine ≡ w.machine)
      × (is_engaged w' ≡ true)
unfolding engage is_engaged Machine.transition
engage_raises_when_stuck now later written why source w h k = ground arith

-- The conditions under which a reset is accepted.
abbrev pub Acceptable : String → String → String → Type 0
Acceptable operator confirmation note =
    (str_eq confirmation reset_confirmation_phrase ≡ true)
    × (ltb (count (strip note)) 10 ≡ false)
    × (str_eq (strip operator) "" ≡ false)

-- A reset that lacks the phrase, a note of ten characters or an operator is refused, and changes
-- nothing. Any other raises nothing and disengages the switch; the machine goes from KILL_SWITCH to
-- DISABLED, and is left alone in every other state.
pub reset_outcome :
    (now later : ℕ) (operator confirmation note : String) (w : World)
    → let (r, w') = reset now later operator confirmation note w in
      ((w' ≡ w) × (r ≢ ok tt) × (Acceptable operator confirmation note → ⊥))
      ⊎ (Acceptable operator confirmation note
          × (r ≡ ok tt)
          × (is_engaged w' ≡ false)
          × (((w.machine.state ≡ BotState.kill_switch) × (w'.machine.state ≡ BotState.disabled))
              ⊎ ((w.machine.state ≢ BotState.kill_switch) × (w'.machine ≡ w.machine))))
unfolding reset is_engaged Machine.transition
reset_outcome now later operator confirmation note w = ground arith

-- At startup from a machine in DISABLED, an engaged switch, by its row or by the
-- sentinel file, puts the machine in KILL_SWITCH; one that is not engaged changes nothing.
pub sync_restores :
    (now : ℕ) (w : World)
    → w.machine.state ≡ BotState.disabled
    → let (r, w') = sync_from_persistence now w in
      (r ≡ ok tt)
      × (((is_engaged w ≡ true) × (w'.machine.state ≡ BotState.kill_switch))
          ⊎ ((is_engaged w ≡ false) × (w' ≡ w)))
unfolding sync_from_persistence Machine.transition
sync_restores now w h = ground arith
