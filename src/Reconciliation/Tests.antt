-- ===== src/Reconciliation/Tests.antt =====
-- A reconciliation of one position, the cash and one order.
use claude_route.Base.{◌≡◌, refl, true, some, [], ◌∷◌}
use claude_route.Base.Int.{pos, ◌-ℤ◌}
use claude_route.Base.Dict.{lookup}
use claude_route.Reconciliation.{
  ReconciliationConfig, LocalState, AccountSnapshot, tokens_to_check, position_mismatches,
  external_orders, stale_orders, compare,
}
use claude_route.Reconciliation.Matched.{IsMatched, compare-IsMatched}

abbrev config : ReconciliationConfig
config = record { share_tolerance = 10_000; balance_tolerance_usd = 100_000_000 }

abbrev local : LocalState
local = record {
  positions = ("t", 5_000_000) ∷ ("old", 1_000_000) ∷ [];
  cash_usd = some (pos 1_000_000_000_000);
  open_order_ids = "x" ∷ "gone" ∷ [];
  known_order_ids = "x" ∷ "gone" ∷ [];
  ignore_tokens = "old" ∷ [];
}

abbrev remote : AccountSnapshot
remote = record {
  collateral_usd = pos 1_000_000_500_000;
  positions = ("t", 5_000_001) ∷ [];
  open_orders = record { exchange_order_id = "x"; token_id = "t" } ∷ [];
  complete = true;
}

agrees : (compare config local remote 7).is_ok ≡ true
unfolding compare tokens_to_check position_mismatches external_orders stale_orders lookup ◌-ℤ◌
agrees = refl

compare-IsMatched_example : IsMatched config local remote
compare-IsMatched_example = compare-IsMatched config local remote 7 agrees
