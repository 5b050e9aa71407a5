-- ===== src/Lifecycle/Journal/Trace.antt =====
-- Proofs on the entries that the halt journal writes over a sequence of changes.
use claude_route.Base.{
  ℕ, zero, suc, ◌+◌, ◌≤◌, ◌≡◌, ◌⊎◌, String, Bool, true, false, List, [], ◌∷◌, arith, length, count,
}
use claude_route.Lifecycle.Machine.{StateChange, is_halt_state}
use claude_route.Lifecycle.Journal.{
  Journal, HaltRecord, Entry, halt, recovery_started, recovered, history_kept, take, new, notify,
  replay, on_halt, on_recovery_started, on_recovered,
}

-- A halt with this id, cause, component and time is among the entries.
abbrev pub Reported : String → String → String → ℕ → List Entry → Type 0
Reported i c k t [] = ⊥
Reported i c k t (halt r ∷ l) =
    ((r.halt_id ≡ i) × (r.cause ≡ c) × (r.component ≡ k) × (r.at_ms ≡ t)) ⊎ Reported i c k t l
Reported i c k t (e ∷ l) = Reported i c k t l

-- Each recovery in the log copies a halt that stands before it in the log.
abbrev pub Explained : List Entry → Type 0
Explained [] = Unit
Explained (halt r ∷ l) = Explained l
Explained (recovery_started i c k t d ch ∷ l) = Reported i c k t l × Explained l
Explained (recovered i c k t ms d s ∷ l) = Reported i c k t l × Explained l

-- The open record is one that the log reports.
abbrev OpenReported : Bool → List HaltRecord → List Entry → Type 0
OpenReported false l a = Unit
OpenReported true [] a = ⊥
OpenReported true (r ∷ l) a = Reported r.halt_id r.cause r.component r.at_ms a

record IsValid (j : Journal) : Type 0 where
  explained : Explained j.audit
  open_reported : OpenReported j.is_open j.history j.audit
  bounded : length j.history ≤ history_kept

length-take : (n : ℕ) (l : List HaltRecord) → length (take n l) ≤ n
length-take zero l = omega arith
length-take (suc n) [] = omega arith
length-take (suc n) (r ∷ l) = omega (arith, length-take n l)

on_halt-IsValid : (c : StateChange) (j : Journal) → IsValid j → IsValid (on_halt c j)
unfolding on_halt
on_halt-IsValid c j h = ground (arith, length-take 49 j.history)

on_recovery_started-IsValid :
    (c : StateChange) (j : Journal)
    → IsValid j
    → j.is_open ≡ true
    → IsValid (on_recovery_started c j.history j)
unfolding on_recovery_started
on_recovery_started-IsValid c j h o = ground arith

on_recovered-IsValid :
    (c : StateChange) (j : Journal)
    → IsValid j
    → j.is_open ≡ true
    → IsValid (on_recovered c j.history j)
unfolding on_recovered
on_recovered-IsValid c j h o = ground arith

notify-IsValid : (c : StateChange) (j : Journal) → IsValid j → IsValid (notify c j)
unfolding notify
notify-IsValid c j h =
    ground
      (arith, on_halt-IsValid c j h, on_recovery_started-IsValid c j h, on_recovered-IsValid c j h)

replay-IsValid : (j : Journal) (cs : List StateChange) → IsValid j → IsValid (replay j cs)
unfolding replay
replay-IsValid j [] h = h
replay-IsValid j (c ∷ cs) h = replay-IsValid (notify c j) cs (notify-IsValid c j h)

new-IsValid : IsValid new
unfolding new
new-IsValid = ground arith

-- Whatever changes the journal is told of, each recovery that it logs carries the id, cause,
-- component and time of a halt that it logged before, and at most 50 halts are kept in memory.
pub recoveries-Explained :
    (cs : List StateChange)
    → Explained (replay new cs).audit × (length (replay new cs).history ≤ history_kept)
recoveries-Explained cs = let v = replay-IsValid new cs new-IsValid in (v.explained, v.bounded)

abbrev pub is_halt : Entry → Bool
is_halt (halt r) = true
is_halt _ = false

abbrev pub halts : List StateChange → ℕ
halts = count (λ c. is_halt_state c.to_state)

notify-halts :
    (c : StateChange) (j : Journal)
    → (count is_halt (notify c j).audit ≡ halts (c ∷ []) + count is_halt j.audit)
      × ((notify c j).seq ≡ halts (c ∷ []) + j.seq)
unfolding notify on_halt on_recovery_started on_recovered
notify-halts c j = ground arith

halts-cons : (c : StateChange) (cs : List StateChange) → halts (c ∷ cs) ≡ halts (c ∷ []) + halts cs
halts-cons c cs = ground arith

replay-halts :
    (j : Journal) (cs : List StateChange)
    → (count is_halt (replay j cs).audit ≡ halts cs + count is_halt j.audit)
      × ((replay j cs).seq ≡ halts cs + j.seq)
unfolding replay
replay-halts j [] = omega arith
replay-halts j (c ∷ cs) =
    omega (arith, halts-cons c cs, notify-halts c j, replay-halts (notify c j) cs)

-- The log has one `halt` event for each change into HALTED or KILL_SWITCH, and the counter that
-- numbers them agrees.
pub every_halt_logged :
    (cs : List StateChange)
    → (count is_halt (replay new cs).audit ≡ halts cs) × ((replay new cs).seq ≡ halts cs)
unfolding new
every_halt_logged cs = omega (arith, replay-halts new cs)
