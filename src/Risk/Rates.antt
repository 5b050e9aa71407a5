-- ===== src/Risk/Rates.antt =====
-- `RateTracker` of src/polymarket_bot/risk/rates.py. The two queues are oldest first.
pub mod Windows
use claude_route.Base.{
  ℕ, ◌+◌, String, Bool, true, false, Option, none, some, List, [], ◌∷◌, ◌++◌, ltb, leb, length,
  count, if◌then◌else◌,
}
use claude_route.Base.Dict.{Dict, insert}
use claude_route.Domain.Types.{OrderPurpose}
use claude_route.Risk.Views.{RateView}

abbrev pub minute : ℕ
minute = 60_000

abbrev pub hour : ℕ
hour = 3_600_000

abbrev pub day : ℕ
day = 86_400_000

pub record RateTracker : Type 0 where
  pub entries : List ℕ
  pub exits : List ℕ
  pub last_by_market : Dict ℕ

abbrev pub new : RateTracker
new = record { entries = []; exits = []; last_by_market = [] }

abbrev pub push : OrderPurpose → ℕ → RateTracker → RateTracker
push OrderPurpose.entry ts t = record t { entries = t.entries ++ ts ∷ [] }
push OrderPurpose.exit ts t = record t { exits = t.exits ++ ts ∷ [] }

-- `record`
unfoldable pub record_order : ℕ → String → OrderPurpose → RateTracker → RateTracker
record_order ts condition purpose t =
    let t' = push purpose ts t in
    record t' { last_by_market = insert condition ts t'.last_by_market }

-- The loop that pops what is older than the window.
unfoldable pub drop_older : ℕ → ℕ → List ℕ → List ℕ
drop_older now window [] = []
drop_older now window (t ∷ ts) =
    let rest = drop_older now window ts in if ltb (t + window) now then rest else t ∷ ts

-- `now_ms - t <= window`
abbrev pub within : ℕ → ℕ → ℕ → Bool
within now window t = leb now (t + window)

-- `view`, which also forgets what is too old.
unfoldable pub view : ℕ → RateTracker → RateView × RateTracker
view now t =
    let kept = record t {
      entries = drop_older now day t.entries;
      exits = drop_older now minute t.exits;
    } in
    (
      record {
        submissions_last_minute = count (within now minute) kept.entries;
        submissions_last_hour = count (within now hour) kept.entries;
        submissions_last_day = length kept.entries;
        exits_last_minute = length kept.exits;
        last_submit_ms_by_market = kept.last_by_market;
      },
      kept,
    )
