-- ===== src/Lifecycle/Machine/Invariant.antt =====
-- Proofs on one call of `transition` or `halt` of the state machine.
use claude_route.Base.{
  ℕ, ◌≡◌, ◌≢◌, ◌⊎◌, refl, String, Bool, true, false, Option, some, arith, is_some, none, inl, inr,
  Bool-cases, ok, err, Result,
}
use claude_route.Domain.Types.{BotState, same_state}
use claude_route.Domain.Json.{Fields}
use claude_route.Lifecycle.Machine.{
  Machine, Options, StateChange, TransitionError, new, can_open_positions, is_live, transition,
  halt, Outcome,
}

pub record IsValid (m : Machine) : Type 0 where
  pub authorized_live : is_some m.live_auth ≡ true → m.state ≡ BotState.live
  pub kill_is_manual : m.state ≡ BotState.kill_switch → m.manual_only ≡ true
  pub manual_is_halt :
      m.manual_only ≡ true → (m.state ≡ BotState.halted) ⊎ (m.state ≡ BotState.kill_switch)

pub new-IsValid : (reason : String) → IsValid (new BotState.disabled reason false)
unfolding new
new-IsValid reason = ground arith

-- Every call of `transition`, whether it moves, stays or raises, keeps three facts: an
-- authorization is held only in LIVE, KILL_SWITCH is marked manual, and nothing but HALTED and
-- KILL_SWITCH is marked manual.
pub transition-IsValid :
    (now : ℕ) (target : BotState) (reason : String) (o : Options) (m : Machine)
    → IsValid m
    → IsValid (transition now target reason o m).1
unfolding transition
transition-IsValid now BotState.disabled reason o m h = ground arith
transition-IsValid now target reason o m h = ground arith

-- From which states a state can be entered: the table of transitions, read by its target.
abbrev pub EnteredFrom : BotState → BotState → Type 0
EnteredFrom BotState.disabled s = (s ≢ BotState.disabled) × (s ≢ BotState.dead)
EnteredFrom BotState.initializing s = s ≡ BotState.disabled
EnteredFrom BotState.syncing s =
    (s ≡ BotState.initializing) ⊎ (s ≡ BotState.halted) ⊎ (s ≡ BotState.paper) ⊎ (s ≡ BotState.live)
EnteredFrom BotState.paper s = s ≡ BotState.syncing
EnteredFrom BotState.live s = s ≡ BotState.syncing
EnteredFrom BotState.halted s =
    (s ≡ BotState.initializing)
    ⊎ (s ≡ BotState.syncing)
    ⊎ (s ≡ BotState.paper)
    ⊎ (s ≡ BotState.live)
EnteredFrom BotState.kill_switch s = (s ≢ BotState.kill_switch) × (s ≢ BotState.dead)
EnteredFrom BotState.dead s = s ≢ BotState.dead

-- The conditions under which a machine may move to another state.
pub record MayMove (target : BotState) (o : Options) (m : Machine) : Type 0 where
  pub entered_from : EnteredFrom target m.state
  pub reset_by_hand : m.state ≡ BotState.kill_switch → o.manual ≡ true
  pub resumed_by_hand : m.state ≡ BotState.halted → m.manual_only ≡ true → o.manual ≡ true
  pub authorized : target ≡ BotState.live → is_some o.live_authorization ≡ true

-- A call that reports a change found every condition of `MayMove` met; the change names the old
-- state and the new one, and the machine stands in the new state with the reason given.
pub transition_change :
    (now : ℕ) (target : BotState) (reason : String) (o : Options) (m : Machine) {c : StateChange}
    → (transition now target reason o m).0 ≡ ok (some c)
    → let m' = (transition now target reason o m).1 in
      MayMove target o m
      × (c.from_state ≡ m.state)
      × (c.to_state ≡ target)
      × (c.ts_ms ≡ now)
      × (m'.state ≡ target)
      × (m'.reason ≡ reason)
      × (c.manual_only ≡ m'.manual_only)
unfolding transition
transition_change now BotState.disabled reason o m h = ground arith
transition_change now BotState.initializing reason o m h = ground arith
transition_change now target reason o m h = ground arith

-- The change that a call reports is the one from `m` to `m'`; only `none` or a raise is no change.
abbrev pub Reports :
    BotState → Machine → Machine → Result TransitionError (Option StateChange) → Type 0
Reports target m m' (ok (some c)) =
    (c.from_state ≡ m.state) × (c.to_state ≡ target) × (c.manual_only ≡ m'.manual_only)
Reports target m m' _ = ⊥

abbrev pub is_change : Result TransitionError (Option StateChange) → Bool
is_change (ok (some c)) = true
is_change _ = false

-- The mark of a machine that has moved: KILL_SWITCH waits for an operator, and HALTED if asked to.
abbrev pub mark : BotState → Options → Bool
mark BotState.kill_switch o = true
mark BotState.halted o = o.manual_only
mark _ o = false

-- A machine behind a move, and the change that is reported
abbrev pub HasMoved : BotState → String → Options → Machine → Outcome → Type 0
HasMoved target reason o m (r, m') =
    (m'.state ≡ target)
    × (m'.reason ≡ reason)
    × (m'.manual_only ≡ mark target o)
    × (is_some m'.live_auth ≡ same_state target BotState.live)
    × Reports target m m' r

-- A machine behind a call that does not move it: only the mark of a halt may have been set.
abbrev pub HasStayed : Machine → Outcome → Type 0
HasStayed m (r, m') =
    (m'.state ≡ m.state)
    × (m'.reason ≡ m.reason)
    × (m'.live_auth ≡ m.live_auth)
    × ((m'.manual_only ≡ m.manual_only) ⊎ (m'.manual_only ≡ true))
    × (is_change r ≡ false)

MayMove-HasMoved :
    (now : ℕ) (target : BotState) (reason : String) (o : Options) (m : Machine)
    → MayMove target o m
    → HasMoved target reason o m (transition now target reason o m)
unfolding transition
MayMove-HasMoved now BotState.disabled reason o m h = ground arith
MayMove-HasMoved now BotState.initializing reason o m h = ground arith
MayMove-HasMoved now target reason o m h = ground arith

is_change-MayMove :
    (now : ℕ) (target : BotState) (reason : String) (o : Options) (m : Machine)
    → is_change (transition now target reason o m).0 ≡ true
    → MayMove target o m
unfolding transition
is_change-MayMove now BotState.disabled reason o m h = ground arith
is_change-MayMove now BotState.initializing reason o m h = ground arith
is_change-MayMove now target reason o m h = ground arith

unchanged-HasStayed :
    (now : ℕ) (target : BotState) (reason : String) (o : Options) (m : Machine)
    → is_change (transition now target reason o m).0 ≡ false
    → HasStayed m (transition now target reason o m)
unfolding transition
unchanged-HasStayed now BotState.disabled reason o m h = ground arith
unchanged-HasStayed now target reason o m h = ground arith

Reports-is_change :
    (target : BotState) (m m' : Machine) (r : Result TransitionError (Option StateChange))
    → Reports target m m' r
    → is_change r ≡ true
Reports-is_change target m m' (ok (some c)) h = refl
Reports-is_change target m m' (ok none) h = elim h [ ]
Reports-is_change target m m' (err e) h = elim h [ ]

-- A call either moves the machine or leaves it. It moves it exactly when the target can be entered
-- from the state, an operator asks where KILL_SWITCH or a manual HALTED is left, and LIVE comes with
-- an authorization: the machine then stands in the target with the reason given, is marked manual in
-- KILL_SWITCH, in HALTED as the call asks, and nowhere else, holds an authorization exactly in LIVE,
-- and the change that is reported names both states and the mark of the machine. In every other case, a raise included, state, reason and authorization are as
-- before, a mark that a halt is manual is not taken away, and no change is reported.
pub transition_moves_iff :
    (now : ℕ) (target : BotState) (reason : String) (o : Options) (m : Machine)
    → let r = transition now target reason o m in
      (MayMove target o m × HasMoved target reason o m r)
      ⊎ ((MayMove target o m → ⊥) × HasStayed m r)
transition_moves_iff now target reason o m =
    let r = transition now target reason o m in
    elim (Bool-cases (is_change r.0)) [
      | inl e ↦
          (let may = is_change-MayMove now target reason o m e in
            inl (may, MayMove-HasMoved now target reason o m may))
      | inr e ↦ inr (
        λ may.
            let (_, _, _, _, reports) = MayMove-HasMoved now target reason o m may in
            let moved = Reports-is_change target m r.1 r.0 reports in cc,
        unchanged-HasStayed now target reason o m e,
      )
    ]

-- A call that raises leaves the machine as it was.
pub transition_raise_unchanged :
    (now : ℕ) (target : BotState) (reason : String) (o : Options) (m : Machine)
    {e : TransitionError}
    → (transition now target reason o m).0 ≡ err e
    → (transition now target reason o m).1 ≡ m
unfolding transition
transition_raise_unchanged now BotState.disabled reason o m h = ground arith
transition_raise_unchanged now target reason o m h = ground arith

-- `halt` never raises, and afterwards no position can be opened, whatever the state was. From a
-- state that it does not leave alone, the machine is in HALTED.
pub halt_stops :
    (now : ℕ) (reason : String) (manual_only : Bool) (component : String) (d : Option Fields)
    (m : Machine)
    → let (r, m') = halt now reason manual_only component d m in
      ((e : TransitionError) → r ≢ err e)
      × (can_open_positions m' ≡ false)
      × (is_live m' ≡ false)
      × (m'.state ≡ m.state ⊎ m'.state ≡ BotState.halted)
unfolding halt transition can_open_positions is_live
halt_stops now reason manual_only component d m = ground arith
