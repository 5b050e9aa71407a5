-- ===== src/Reconciliation.antt =====
-- `Reconciler.compare` of src/polymarket_bot/reconciliation/reconciler.py. Sets are lists; a set that
-- is gone through in order holds each of its members once, which matters to no result but the order
-- and the number of the mismatches. Shares count 0.000001; the cash is signed.
pub mod Matched
mod Tests
use claude_route.Base.{
  ℕ, ◌+◌, ◌-◌, String, Bool, true, false, not, ◌&&◌, ◌||◌, Option, none, some, List, [], ◌∷◌, ◌++◌,
  any, all, filter, map, ltb, value_or, str_eq, length, if◌then◌else◌,
}
use claude_route.Base.Int.{ℤ, ◌-ℤ◌, pos_part, neg_part}
use claude_route.Base.Dict.{Dict, lookup}

pub data MismatchKind : Type 0 where
  incomplete_remote position cash external_order stale_local_open_order : MismatchKind

pub record Mismatch : Type 0 where
  pub kind : MismatchKind
  pub token_id : Option String

-- `severity`: every kind but the last is made critical.
abbrev pub is_critical : MismatchKind → Bool
is_critical MismatchKind.stale_local_open_order = false
is_critical _ = true

pub record OpenOrderView : Type 0 where
  pub exchange_order_id : String
  pub token_id : String

pub record AccountSnapshot : Type 0 where
  pub collateral_usd : ℤ
  pub positions : Dict ℕ
  pub open_orders : List OpenOrderView
  pub complete : Bool

pub record LocalState : Type 0 where
  pub positions : Dict ℕ
  pub cash_usd : Option ℤ
  pub open_order_ids : List String
  pub known_order_ids : List String
  pub ignore_tokens : List String

pub record ReconciliationConfig : Type 0 where
  pub share_tolerance : ℕ
  pub balance_tolerance_usd : ℕ

pub record ReconciliationReport : Type 0 where
  pub is_ok : Bool
  pub ts_ms : ℕ
  pub mismatches : List Mismatch
  pub checked_tokens : ℕ

abbrev pub distance : ℕ → ℕ → ℕ
distance a b = (a - b) + (b - a)

abbrev pub distance_ℤ : ℤ → ℤ → ℕ
distance_ℤ a b = pos_part (a -ℤ b) + neg_part (a -ℤ b)

abbrev pub is_in : String → List String → Bool
is_in s = any (str_eq s)

abbrev pub mismatch_if : Bool → MismatchKind → Option String → List Mismatch
mismatch_if b kind token = if b then record { kind = kind; token_id = token } ∷ [] else []

-- `d.get(token, ZERO)`
abbrev pub shares_of : String → Dict ℕ → ℕ
shares_of token d = value_or (lookup token d) 0

-- The union of the two sets of tokens, less those to ignore.
unfoldable pub add_tokens : Dict ℕ → List String → List String → List String
add_tokens [] ignored tokens = tokens
add_tokens ((t, n) ∷ d) ignored tokens =
    let rest = add_tokens d ignored tokens in
    if is_in t ignored || is_in t rest then rest else t ∷ rest

unfoldable pub tokens_to_check : LocalState → AccountSnapshot → List String
unfolding add_tokens
tokens_to_check l r =
    add_tokens l.positions l.ignore_tokens (add_tokens r.positions l.ignore_tokens [])

unfoldable pub position_mismatches :
    ReconciliationConfig → LocalState → AccountSnapshot → List String → List Mismatch
position_mismatches c l r [] = []
position_mismatches c l r (t ∷ ts) =
    mismatch_if
      (ltb c.share_tolerance (distance (shares_of t l.positions) (shares_of t r.positions)))
      MismatchKind.position (some t)
    ++ position_mismatches c l r ts

abbrev pub cash_mismatches : ReconciliationConfig → Option ℤ → ℤ → List Mismatch
cash_mismatches c none theirs = []
cash_mismatches c (some ours) theirs =
    mismatch_if (ltb c.balance_tolerance_usd (distance_ℤ ours theirs)) MismatchKind.cash none

unfoldable pub external_orders : List String → List OpenOrderView → List Mismatch
external_orders known [] = []
external_orders known (o ∷ os) =
    mismatch_if (not (is_in o.exchange_order_id known)) MismatchKind.external_order
      (some o.token_id)
    ++ external_orders known os

unfoldable pub stale_orders : List String → List String → List Mismatch
stale_orders remote [] = []
stale_orders remote (i ∷ is) =
    mismatch_if (not (is_in i remote)) MismatchKind.stale_local_open_order none
    ++ stale_orders remote is

abbrev pub all_mismatches :
    ReconciliationConfig → LocalState → AccountSnapshot → List String → List Mismatch
all_mismatches c l r tokens =
    mismatch_if (not r.complete) MismatchKind.incomplete_remote none
    ++ position_mismatches c l r tokens
    ++ cash_mismatches c l.cash_usd r.collateral_usd
    ++ external_orders l.known_order_ids r.open_orders
    ++ stale_orders (map (λ o. o.exchange_order_id) r.open_orders) l.open_order_ids

-- `not any(m.severity == "critical" for m in mismatches)`
abbrev pub none_critical : List Mismatch → Bool
none_critical = all (λ m. not (is_critical m.kind))

-- `compare`
unfoldable pub compare :
    ReconciliationConfig → LocalState → AccountSnapshot → ℕ → ReconciliationReport
compare c l r now =
    let tokens = tokens_to_check l r in
    let mismatches = all_mismatches c l r tokens in
    record {
      is_ok = none_critical mismatches;
      ts_ms = now;
      mismatches = mismatches;
      checked_tokens = length tokens;
    }
