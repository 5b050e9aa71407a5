-- ===== src/Lifecycle/Machine/Paths.antt =====
-- Sequences of calls of `transition` and `halt`, and proofs on them.
use claude_route.Base.{
  ℕ, ◌≡◌, ◌≢◌, ◌⊎◌, ◌∙◌, inl, inr, refl, none, some, IsIn, String, Bool, true, false, Option, List,
  [], ◌∷◌, arith, is_some, all, not,
}
use claude_route.Domain.Types.{BotState}
use claude_route.Domain.Json.{Fields}
use claude_route.Lifecycle.Machine
use claude_route.Lifecycle.Machine.{Machine, Options, LiveAuthorization, defaults, Outcome, new}
use claude_route.Lifecycle.Machine.Invariant.{IsValid, transition-IsValid, new-IsValid}

-- One call, with the time at which it is made.
pub data Call : Type 0 where
  transition : ℕ → BotState → String → Options → Call
  halt : ℕ → String → Bool → String → Option Fields → Call

unfoldable pub call : Call → Machine → Outcome
call (Call.transition now target reason o) m = Machine.transition now target reason o m
call (Call.halt now reason manual_only component d) m =
    Machine.halt now reason manual_only component d m

-- Calls one after the other; a call that raises ends only itself.
unfoldable pub run : Machine → List Call → Machine
run m [] = m
run m (c ∷ cs) = run (call c m).1 cs

-- An operator's call.
abbrev pub is_manual : Call → Bool
is_manual (Call.transition now target reason o) = o.manual
is_manual (Call.halt now reason manual_only component d) = false

-- The authorization that a call carries.
abbrev pub carried : Call → Option LiveAuthorization
carried (Call.transition now target reason o) = o.live_authorization
carried (Call.halt now reason manual_only component d) = none

halt-IsValid :
    (now : ℕ) (reason : String) (manual_only : Bool) (component : String) (d : Option Fields)
    (m : Machine)
    → IsValid m
    → IsValid (Machine.halt now reason manual_only component d m).1
unfolding Machine.halt
halt-IsValid now reason manual_only component d m h = ground (
  arith,
  transition-IsValid now BotState.halted reason
      (record defaults { manual_only = manual_only; component = component; details = d }) m h,
)

call-IsValid : (c : Call) (m : Machine) → IsValid m → IsValid (call c m).1
unfolding call
call-IsValid (Call.transition now target reason o) m h = transition-IsValid now target reason o m h
call-IsValid (Call.halt now reason manual_only component d) m h =
    halt-IsValid now reason manual_only component d m h

run-IsValid : (m : Machine) (cs : List Call) → IsValid m → IsValid (run m cs)
unfolding run
run-IsValid m [] h = h
run-IsValid m (c ∷ cs) h = run-IsValid (call c m).1 cs (call-IsValid c m h)

call-dead : (c : Call) (m : Machine) → m.state ≡ BotState.dead → (call c m).1 ≡ m
unfolding call Machine.halt Machine.transition
call-dead (Call.transition now BotState.dead reason o) m h = ground arith
call-dead (Call.transition now target reason o) m h = ground arith
call-dead (Call.halt now reason manual_only component d) m h = ground arith

-- DEAD is absorbing: whatever is called, in whatever order, the machine stays as it is.
pub dead_absorbs : (m : Machine) (cs : List Call) → m.state ≡ BotState.dead → run m cs ≡ m
unfolding run
dead_absorbs m [] h = refl
dead_absorbs m (c ∷ cs) h = rw (call-dead c m h) (dead_absorbs m cs h)

call_held :
    (c : Call) (m : Machine)
    → m.state ≡ BotState.kill_switch
    → is_manual c ≡ false
    → (call c m).1.state ≡ BotState.kill_switch
unfolding call Machine.halt Machine.transition
call_held (Call.transition now BotState.dead reason o) m h k = ground arith
call_held (Call.transition now target reason o) m h k = ground arith
call_held (Call.halt now reason manual_only component d) m h k = ground arith

-- Without an operator's call the machine never leaves KILL_SWITCH.
pub kill_switch_holds :
    (m : Machine) (cs : List Call)
    → m.state ≡ BotState.kill_switch
    → all (λ c. not (is_manual c)) cs ≡ true
    → (run m cs).state ≡ BotState.kill_switch
unfolding run
kill_switch_holds m [] h k = h
kill_switch_holds m (c ∷ cs) h k =
    kill_switch_holds (call c m).1 cs (call_held c m h (ground arith)) (ground arith)

abbrev Stuck : Machine → Type 0
Stuck m = (m.state ≡ BotState.halted) × (m.manual_only ≡ true)

call-Stuck : (c : Call) (m : Machine) → Stuck m → is_manual c ≡ false → Stuck (call c m).1
unfolding call Machine.halt Machine.transition
call-Stuck (Call.transition now BotState.dead reason o) m h k = ground arith
call-Stuck (Call.transition now target reason o) m h k = ground arith
call-Stuck (Call.halt now reason manual_only component d) m h k = ground arith

-- Without an operator's call a manual HALTED stays a manual HALTED.
pub manual_halt_holds :
    (m : Machine) (cs : List Call)
    → (m.state ≡ BotState.halted) × (m.manual_only ≡ true)
    → all (λ c. not (is_manual c)) cs ≡ true
    → ((run m cs).state ≡ BotState.halted) × ((run m cs).manual_only ≡ true)
unfolding run
manual_halt_holds m [] h k = h
manual_halt_holds m (c ∷ cs) h k =
    manual_halt_holds (call c m).1 cs (call-Stuck c m h (ground arith)) (ground arith)

-- A call that ends in LIVE began there and kept the authorization, or brought it.
call-live :
    (c : Call) (m : Machine)
    → (call c m).1.state ≡ BotState.live
    → ((m.state ≡ BotState.live) × ((call c m).1.live_auth ≡ m.live_auth))
      ⊎ ((is_some (carried c) ≡ true) × ((call c m).1.live_auth ≡ carried c))
unfolding call Machine.halt Machine.transition
call-live (Call.transition now BotState.dead reason o) m h = ground arith
call-live (Call.transition now target reason o) m h = ground arith
call-live (Call.halt now reason manual_only component d) m h = ground arith

some_of : (o : Option LiveAuthorization) → is_some o ≡ true → (a : LiveAuthorization) × (o ≡ some a)
some_of none h = ground arith
some_of (some a) h = (a, refl)

-- In LIVE the machine holds an authorization for which `Q` holds.
abbrev Holds : (LiveAuthorization → Type 0) → Machine → Type 0
Holds Q m = m.state ≡ BotState.live → (a : LiveAuthorization) × (m.live_auth ≡ some a) × Q a

module _ (Q : LiveAuthorization → Type 0) where
  call-Holds :
      (c : Call) (m : Machine)
      → ((a : LiveAuthorization) → carried c ≡ some a → Q a)
      → Holds Q m
      → Holds Q (call c m).1
  call-Holds c m q h l = elim (call-live c m l) [
    | inl (was, kept) ↦ (let (a, e, good) = h was in (a, kept ∙ e, good))
    | inr (given, kept) ↦ (let (a, e) = some_of (carried c) given in (a, kept ∙ e, q a e))
  ]

  run-Holds :
      (m : Machine) (cs : List Call)
      → ((c : Call) → IsIn c cs → (a : LiveAuthorization) → carried c ≡ some a → Q a)
      → Holds Q m
      → Holds Q (run m cs)
  unfolding run
  run-Holds m [] q h = h
  run-Holds m (c ∷ cs) q h =
      run-Holds (call c m).1 cs (λ d i. q d (inr i)) (call-Holds c m (q c (inl refl)) h)

-- A machine that is not in LIVE, and is there behind some calls, then holds an authorization, and
-- it is one that one of these calls carried.
pub live_needs_authorization :
    (m : Machine) (cs : List Call)
    → m.state ≢ BotState.live
    → (run m cs).state ≡ BotState.live
    → (a : LiveAuthorization) × ((run m cs).live_auth ≡ some a)
      × ((c : Call) × IsIn c cs × (carried c ≡ some a))
live_needs_authorization m cs h l =
    run-Holds (λ a. (c : Call) × IsIn c cs × (carried c ≡ some a)) m cs (λ c i a e. (c, i, e))
      (λ e. elim (h e) [ ]) l

-- A bot that starts DISABLED keeps the machine's invariant through every sequence of calls.
pub reachable-IsValid :
    (reason : String) (cs : List Call) → IsValid (run (new BotState.disabled reason false) cs)
reachable-IsValid reason cs =
    run-IsValid (new BotState.disabled reason false) cs (new-IsValid reason)
