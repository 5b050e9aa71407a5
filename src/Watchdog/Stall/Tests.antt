-- ===== src/Watchdog/Stall/Tests.antt =====
-- The detector of a blocked event loop on a concrete bot.
use claude_route.Base.{ℕ, ◌≡◌, refl, String, Bool, true, false, none, [], ◌∷◌}
use claude_route.Domain.Types.{BotState}
use claude_route.Domain.Json.{Fields}
use claude_route.Lifecycle.Machine.{Machine}
use claude_route.Watchdog.Health
use claude_route.Watchdog.Stall.{new, Round, poll, watch}
use claude_route.Watchdog.Stall.Detected.{is_stalled, IsStopped, first_stall}

abbrev render : ℕ → String
render age = "6.0s"

abbrev details : ℕ → Fields
details age = Fields.end

abbrev machine : Machine
machine = record { state = BotState.live; reason = "test"; manual_only = false; live_auth = none }

-- The loop has beaten at 1000.
abbrev round_at : ℕ → Bool → Round
round_at monotonic written = record {
  monotonic = monotonic;
  now_ms = monotonic;
  registry = Health.beat_loop 1_000 Health.new;
  machine = machine;
  written = written;
}

fires :
    (watch 5_000 render details
      (round_at 6_000 true ∷ round_at 6_001 true ∷ round_at 7_000 true ∷ [])
      new).reports
    ≡ 5_001 ∷ []
unfolding poll Health.snapshot Health.new
fires = refl

-- A report that cannot be written ends the thread, and the bot trades on.
unwritten :
    poll 5_000 render details (round_at 6_001 false) new
    ≡ (record { running = false; triggered = true; reports = [] }, machine)
unfolding poll Health.snapshot Health.new
unwritten = refl

is_stalled-round_at : is_stalled 5_000 (round_at 6_001 true) ≡ true
unfolding Health.snapshot Health.new
is_stalled-round_at = refl

is_stalled-calm : is_stalled 5_000 (round_at 6_000 true) ≡ false
unfolding Health.snapshot Health.new
is_stalled-calm = refl

first_stall_example :
    let before = round_at 6_000 true ∷ [] in
    let after = round_at 7_000 true ∷ [] in
    let (d, m) =
      poll 5_000 render details (round_at 6_001 true) (watch 5_000 render details before new) in
    (watch 5_000 render details before new ≡ new)
    × IsStopped m
    × (poll 5_000 render details (round_at 9_000 true) (watch 5_000 render details after d)
        ≡ (d, machine))
first_stall_example =
    first_stall 5_000 render details (round_at 6_000 true ∷ []) (round_at 7_000 true ∷ [])
      (round_at 6_001 true) (round_at 9_000 true) (is_stalled-calm, tt) is_stalled-round_at refl
      refl
