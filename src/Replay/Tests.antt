-- ===== src/Replay/Tests.antt =====
-- Small recorded sessions, and their replay on them.
use claude_route.Base.{arith, ℕ, String, false, none, some, List, [], ◌∷◌, ◌≡◌, refl}
use claude_route.Replay.{
  Envelope, Line, blank, envelope, time_goes_backwards, message, read, iter_messages,
}
use claude_route.Replay.Engine.{tick, apply, run_replay, unreadable, empty_session}
use claude_route.Replay.Clock.{advance_to, new}
use claude_route.Replay.Order.{IsInOrder, run_replay-IsInOrder}

abbrev recorded : String → ℕ → ℕ → Envelope
recorded src t seq = record { src = src; kind = "book"; t = t; seq = seq; content = none }

abbrev session : List (String × List Line)
session =
    (
      "part-0001.jsonl",
      envelope (recorded "gamma" 1_000 1) ∷ blank ∷ envelope (recorded "bot" 7 2) ∷ [],
    )
    ∷ ("part-0002.jsonl", envelope (recorded "clob_ws" 2_500 3) ∷ [])
    ∷ []

abbrev backwards : List (String × List Line)
backwards =
    ("part-0001.jsonl", envelope (recorded "gamma" 1_000 1) ∷ envelope (recorded "rtds" 999 2) ∷ [])
    ∷ []

-- A tick at the time of a message stands behind it, and the tail runs to its end.
replayed :
    (run_replay 500 500 (iter_messages false session)).0
    ≡ apply (message (recorded "gamma" 1_000 1))
      ∷ tick 1_500
      ∷ tick 2_000
      ∷ apply (message (recorded "clob_ws" 2_500 3))
      ∷ tick 2_500
      ∷ tick 3_000
      ∷ []
unfolding run_replay iter_messages read
replayed = refl

stops_at_error : run_replay 500 500 (iter_messages false backwards) ≡ (
  apply (message (recorded "gamma" 1_000 1)) ∷ [],
  some (unreadable (time_goes_backwards "part-0001.jsonl" 2)),
)
unfolding run_replay iter_messages read
stops_at_error = refl

no_messages : run_replay 500 500 (iter_messages false []) ≡ ([], some empty_session)
unfolding run_replay iter_messages
no_messages = refl

-- The clock refuses to go back.
refuses : advance_to 999 (new 1_000) ≡ none
unfolding advance_to
refuses = refl

run_replay-IsInOrder_example :
    IsInOrder (iter_messages false session).0 (run_replay 500 500 (iter_messages false session)).0
run_replay-IsInOrder_example = run_replay-IsInOrder 500 500 session (omega arith)
