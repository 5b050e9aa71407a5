-- ===== src/Reconciliation/Matched.antt =====
-- Proofs on `compare` of reconciliation/reconciler.py.
use claude_route.Base.{
  ℕ, ◌≤◌, ◌≡◌, inl, inr, refl, String, Bool, true, false, not, ◌&&◌, ◌||◌, Option, none, some, List,
  [], ◌∷◌, ◌++◌, map, All, arith, ltb, str_eq, eq_iff, is_some, value_or, Bool-cases,
}
use claude_route.Base.Int.{ℤ}
use claude_route.Base.Dict.{Dict, lookup}
use claude_route.Reconciliation.{
  ReconciliationConfig, LocalState, AccountSnapshot, OpenOrderView, Mismatch, MismatchKind,
  distance, distance_ℤ, is_in, mismatch_if, shares_of, is_critical, add_tokens, tokens_to_check,
  position_mismatches, cash_mismatches, external_orders, stale_orders, none_critical, compare,
}

none_critical-append :
    (xs ys : List Mismatch) → none_critical (xs ++ ys) ≡ (none_critical xs && none_critical ys)
none_critical-append [] ys = refl
none_critical-append (x ∷ xs) ys = ground (arith, none_critical-append xs ys)

five_clear :
    (a b c d e : List Mismatch)
    → none_critical (a ++ b ++ c ++ d ++ e) ≡ true
    → (none_critical a ≡ true)
      × (none_critical b ≡ true)
      × (none_critical c ≡ true)
      × (none_critical d ≡ true)
five_clear a b c d e h = ground (
  arith,
  none_critical-append (a ++ b ++ c ++ d) e,
  none_critical-append (a ++ b ++ c) d,
  none_critical-append (a ++ b) c,
  none_critical-append a b,
)

-- A token of the local or the remote positions that is not ignored is checked.
is_in-add_tokens :
    (t : String) (d : Dict ℕ) (ignored tokens : List String)
    → is_in t ignored ≡ false
    → is_some (lookup t d) || is_in t tokens ≡ true
    → is_in t (add_tokens d ignored tokens) ≡ true
unfolding add_tokens lookup
is_in-add_tokens t [] ignored tokens h k = k
is_in-add_tokens t ((u, n) ∷ d) ignored tokens h k =
    ground (arith, eq_iff u t, eq_iff t u, eq_iff t t, is_in-add_tokens t d ignored tokens h)

mismatch_clear :
    (b : Bool) (kind : MismatchKind) (token : Option String) (rest : List Mismatch)
    → is_critical kind ≡ true
    → none_critical (mismatch_if b kind token ++ rest) ≡ true
    → (b ≡ false) × (none_critical rest ≡ true)
mismatch_clear true kind token rest c h = ground arith
mismatch_clear false kind token rest c h = (refl, h)

position_clear :
    (c : ReconciliationConfig) (l : LocalState) (r : AccountSnapshot) (ts : List String)
    (t : String)
    → none_critical (position_mismatches c l r ts) ≡ true
    → is_in t ts ≡ true
    → distance (shares_of t l.positions) (shares_of t r.positions) ≤ c.share_tolerance
unfolding position_mismatches
position_clear c l r [] t h k = cc
position_clear c l r (u ∷ us) t h k =
    let (near, rest) =
      mismatch_clear
        (ltb c.share_tolerance (distance (shares_of u l.positions) (shares_of u r.positions)))
        MismatchKind.position (some u) (position_mismatches c l r us) refl h in
    elim (Bool-cases (str_eq t u)) [
      | inl e ↦ rw ((eq_iff t u).0 e) (not_less near)
      | inr e ↦ position_clear c l r us t rest (rw e at k)
    ]
  where
    not_less : {a b : ℕ} → ltb a b ≡ false → b ≤ a
    not_less q = ground arith

orders_clear :
    (known : List String) (os : List OpenOrderView)
    → none_critical (external_orders known os) ≡ true
    → All (λ o. is_in o.exchange_order_id known ≡ true) os
unfolding external_orders
orders_clear known [] h = tt
orders_clear known (o ∷ os) h =
    let (known_o, rest) =
      mismatch_clear (not (is_in o.exchange_order_id known)) MismatchKind.external_order
        (some o.token_id) (external_orders known os) refl h in
    (not_false known_o, orders_clear known os rest)
  where
    not_false : {b : Bool} → not b ≡ false → b ≡ true
    not_false q = ground arith

-- What the local state and the account agree on.
pub record IsMatched (c : ReconciliationConfig) (l : LocalState) (r : AccountSnapshot)
    : Type 0 where
  pub complete : r.complete ≡ true
  pub positions :
      (t : String)
      → is_in t l.ignore_tokens ≡ false
      → distance (shares_of t l.positions) (shares_of t r.positions) ≤ c.share_tolerance
  pub cash :
      (ours : ℤ)
      → l.cash_usd ≡ some ours
      → distance_ℤ ours r.collateral_usd ≤ c.balance_tolerance_usd
  pub orders : All (λ o. is_in o.exchange_order_id l.known_order_ids ≡ true) r.open_orders

cash_clear :
    (c : ReconciliationConfig) (o : Option ℤ) (theirs ours : ℤ)
    → none_critical (cash_mismatches c o theirs) ≡ true
    → o ≡ some ours
    → distance_ℤ ours theirs ≤ c.balance_tolerance_usd
cash_clear c none theirs ours h e = cc
cash_clear c (some z) theirs ours h e = ground (
  arith,
  mismatch_clear (ltb c.balance_tolerance_usd (distance_ℤ z theirs)) MismatchKind.cash none [],
)

-- A token that is checked, or that nobody holds.
positions_clear :
    (c : ReconciliationConfig) (l : LocalState) (r : AccountSnapshot) (t : String)
    → none_critical (position_mismatches c l r (tokens_to_check l r)) ≡ true
    → is_in t l.ignore_tokens ≡ false
    → distance (shares_of t l.positions) (shares_of t r.positions) ≤ c.share_tolerance
unfolding tokens_to_check
positions_clear c l r t h k = elim (Bool-cases (is_some (lookup t l.positions))) [
  | inl ours ↦
      position_clear c l r (tokens_to_check l r) t h
        (is_in-add_tokens t l.positions l.ignore_tokens _ k (rw ours refl))
  | inr x ↦ elim (Bool-cases (is_some (lookup t r.positions))) [
    | inl theirs ↦ position_clear c l r (tokens_to_check l r) t h (
        is_in-add_tokens t l.positions l.ignore_tokens _ k
          (rw (x, is_in-add_tokens t r.positions l.ignore_tokens [] k (rw theirs refl)) refl))
    | inr y ↦ nobody (lookup t l.positions) (lookup t r.positions) x y
  ]
]
  where
    nobody :
        (a b : Option ℕ)
        → is_some a ≡ false
        → is_some b ≡ false
        → distance (value_or a 0) (value_or b 0) ≤ c.share_tolerance
    nobody a b p q = ground arith

-- A reconciliation that is ok: the snapshot of the account is complete; every token that is not
-- ignored, whoever holds it, has the same shares on both sides up to the tolerance; the cash, where
-- it is tracked, agrees up to its tolerance; and every open order of the account is known here.
pub compare-IsMatched :
    (c : ReconciliationConfig) (l : LocalState) (r : AccountSnapshot) (now : ℕ)
    → (compare c l r now).is_ok ≡ true
    → IsMatched c l r
unfolding compare
compare-IsMatched c l r now h =
    let (complete, positions, cash, orders) =
      five_clear (mismatch_if (not r.complete) MismatchKind.incomplete_remote none)
        (position_mismatches c l r (tokens_to_check l r))
        (cash_mismatches c l.cash_usd r.collateral_usd)
        (external_orders l.known_order_ids r.open_orders)
        (stale_orders (map (λ o. o.exchange_order_id) r.open_orders) l.open_order_ids) h in
    record {
      complete = whole r.complete complete;
      positions = λ t k. positions_clear c l r t positions k;
      cash = λ ours e. cash_clear c l.cash_usd r.collateral_usd ours cash e;
      orders = orders_clear l.known_order_ids r.open_orders orders;
    }
  where
    whole :
        (b : Bool)
        → none_critical (mismatch_if (not b) MismatchKind.incomplete_remote none) ≡ true
        → b ≡ true
    whole true q = refl
    whole false q = cc
