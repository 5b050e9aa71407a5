-- ===== src/Portfolio/Conservation.antt =====
-- Proofs on the money that `apply_fill` of the portfolio moves.
use claude_route.Base.{
  ℕ, ◌-◌, ◌*◌, ◌≤◌, ◌≡◌, inl, inr, refl, String, true, false, Option, none, some, arith, ltb,
  eq_iff, Option-cases, Bool-cases, ◌==◌, ◌∙◌,
}
use claude_route.Base.Int.{ℤ, pos, ◌+ℤ◌, ◌-ℤ◌, int_laws, ltb_ℤ}
use claude_route.Base.Dict.{lookup, lookup-insert}
use claude_route.Base.Dict.Distinct.{Distinct, insert-Distinct, erase-Distinct}
use claude_route.Domain.Types.{Side}
use claude_route.Domain.Orders.{Fill}
use claude_route.Portfolio.{
  Portfolio, Position, ExitKind, opened, cost_of, bought, sold, buy, sell_writes, fill_by_side,
  cash_tolerance, sell_position, cost_removed, close, apply_fill, exposure_usd,
}
use claude_route.Portfolio.Rounding.{round_half_even-le}
use claude_route.Portfolio.Dicts.{
  Keyed, insert-Keyed, erase-Keyed, lookup-Keyed, exposure_usd-insert, exposure_usd-insert_new,
  exposure_usd-erase,
}

-- One position for a token, under the token's name.
pub record IsValid (f : Portfolio) : Type 0 where
  pub distinct : Distinct f.positions
  pub keyed : Keyed f.positions

-- Cash, plus the cost of what is held, less the realized profit.
abbrev pub invested : Portfolio → ℤ
invested f = f.cash_usd +ℤ pos (exposure_usd f.positions) -ℤ f.realized_pnl_usd

-- What a step does: it keeps the invariant and the invested amount.
pub record Conserves (f f' : Portfolio) : Type 0 where
  pub valid : IsValid f'
  pub same : invested f' ≡ invested f

pub cost_removed-le : (n : ℕ) (p : Position) → n ≤ p.shares → cost_removed n p ≤ p.cost_basis_usd
unfolding cost_removed
cost_removed-le n p h = elim (Bool-cases (n == p.shares)) [
  | inl e ↦ rw e (omega arith)
  | inr e ↦ rw e (
      round_half_even-le (p.cost_basis_usd * n) p.shares p.cost_basis_usd (ground arith)
        (grind arith))
]

pub close-Conserves :
    (p : Position) (ts : ℕ) (kind : ExitKind) (f : Portfolio)
    → IsValid f
    → lookup p.token_id f.positions ≡ some p
    → p.cost_basis_usd ≡ 0
    → Conserves f (close p ts kind f)
unfolding close
close-Conserves p ts kind f v e z = record {
  valid = record {
    distinct = erase-Distinct p.token_id f.positions v.distinct;
    keyed = erase-Keyed p.token_id f.positions v.keyed;
  };
  same = omega (int_laws, exposure_usd-erase p.token_id p f.positions v.distinct e);
}

buy-Conserves_new :
    (fill : Fill) (slug : String) (w : ℕ) (f : Portfolio)
    → IsValid f
    → lookup fill.token_id f.positions ≡ none
    → Conserves f (buy fill (opened fill slug w) f)
unfolding buy
buy-Conserves_new fill slug w f v e = record {
  valid = record {
    distinct =
        insert-Distinct fill.token_id (bought fill (opened fill slug w)) f.positions v.distinct;
    keyed = insert-Keyed fill.token_id (bought fill (opened fill slug w)) f.positions refl v.keyed;
  };
  same = omega (
    int_laws,
    exposure_usd-insert_new fill.token_id (bought fill (opened fill slug w)) f.positions e,
  );
}

buy-Conserves :
    (fill : Fill) (p : Position) (f : Portfolio)
    → IsValid f
    → lookup fill.token_id f.positions ≡ some p
    → Conserves f (buy fill p f)
unfolding buy
buy-Conserves fill p f v e = record {
  valid = record {
    distinct = insert-Distinct fill.token_id (bought fill p) f.positions v.distinct;
    keyed =
        insert-Keyed fill.token_id (bought fill p) f.positions
          (lookup-Keyed fill.token_id p f.positions v.keyed e) v.keyed;
  };
  same = omega (int_laws, exposure_usd-insert fill.token_id (bought fill p) p f.positions e);
}

sell_writes-Conserves :
    (fill : Fill) (p : Position) (f : Portfolio)
    → IsValid f
    → lookup fill.token_id f.positions ≡ some p
    → fill.shares ≤ p.shares
    → Conserves f (sell_writes fill p f)
unfolding sell_writes
sell_writes-Conserves fill p f v e h = record {
  valid = record {
    distinct = insert-Distinct fill.token_id (sold fill p) f.positions v.distinct;
    keyed =
        insert-Keyed fill.token_id (sold fill p) f.positions
          (lookup-Keyed fill.token_id p f.positions v.keyed e) v.keyed;
  };
  same = omega (
    int_laws,
    exposure_usd-insert fill.token_id (sold fill p) p f.positions e,
    cost_removed-le fill.shares p h,
  );
}

pub Conserves-refl : (f : Portfolio) → IsValid f → Conserves f f
Conserves-refl f v = record { valid = v; same = refl }

pub Conserves-trans : (f g h : Portfolio) → Conserves f g → Conserves g h → Conserves f h
Conserves-trans f g h a b = record { valid = b.valid; same = b.same ∙ a.same }

lookup-sold :
    (fill : Fill) (p : Position) (f : Portfolio)
    → p.token_id ≡ fill.token_id
    → lookup p.token_id (sell_writes fill p f).positions ≡ some (sold fill p)
unfolding sell_writes
lookup-sold fill p f e = ground (
  arith,
  lookup-insert fill.token_id p.token_id (sold fill p) f.positions,
  eq_iff fill.token_id p.token_id,
)

-- What is sold whole takes its whole cost along.
sold_whole :
    (fill : Fill) (p : Position)
    → ltb p.shares fill.shares ≡ false
    → (p.shares - fill.shares == 0) ≡ true
    → (sold fill p).cost_basis_usd ≡ 0
unfolding cost_removed
sold_whole fill p h e = ground arith

sell_close-Conserves :
    (fill : Fill) (p : Position) (f : Portfolio)
    → IsValid f
    → lookup fill.token_id f.positions ≡ some p
    → ltb p.shares fill.shares ≡ false
    → (p.shares - fill.shares == 0) ≡ true
    → Conserves f (close (sold fill p) fill.ts_ms ExitKind.sell (sell_writes fill p f))
sell_close-Conserves fill p f v e h z =
    let written = sell_writes-Conserves fill p f v e (ground arith) in
    Conserves-trans f (sell_writes fill p f) _ written (
      close-Conserves (sold fill p) fill.ts_ms ExitKind.sell (sell_writes fill p f) written.valid
        (lookup-sold fill p f (lookup-Keyed fill.token_id p f.positions v.keyed e))
        (sold_whole fill p h z))

sell_position-Conserves :
    (fill : Fill) (o : Option Position) (f : Portfolio)
    → IsValid f
    → lookup fill.token_id f.positions ≡ o
    → Conserves f (sell_position fill o f).1
unfolding sell_position
sell_position-Conserves fill none f v e = Conserves-refl f v
sell_position-Conserves fill (some p) f v e = elim (Bool-cases (ltb p.shares fill.shares)) [
  | inl short ↦ rw short (Conserves-refl f v)
  | inr covered ↦ elim (Bool-cases (p.shares - fill.shares == 0)) [
    | inl whole ↦ rw (covered, whole) (sell_close-Conserves fill p f v e covered whole)
    | inr partial ↦ rw (covered, partial) (sell_writes-Conserves fill p f v e (ground arith))
  ]
]

by_side-Conserves :
    (side : Side) (fill : Fill) (slug : String) (w : ℕ) (f : Portfolio)
    → IsValid f
    → Conserves f (fill_by_side side fill slug w f).1
by_side-Conserves Side.buy fill slug w f v =
    elim (Bool-cases (ltb_ℤ (f.cash_usd +ℤ pos cash_tolerance) (pos (cost_of fill)))) [
      | inl dear ↦ rw dear (Conserves-refl f v)
      | inr afforded ↦ rw afforded (elim (Option-cases (lookup fill.token_id f.positions)) [
        | inl e ↦ rw e (buy-Conserves_new fill slug w f v e)
        | inr (p, e) ↦ rw e (buy-Conserves fill p f v e)
      ])
    ]
by_side-Conserves Side.sell fill slug w f v =
    sell_position-Conserves fill (lookup fill.token_id f.positions) f v refl

-- A fill, accepted or refused, keeps one position to a token, and makes and loses no money: cash
-- plus the cost of the positions less the realized profit is what it was.
pub apply_fill-Conserves :
    (fill : Fill) (slug : String) (w : ℕ) (f : Portfolio)
    → IsValid f
    → Conserves f (apply_fill fill slug w f).1
unfolding apply_fill
apply_fill-Conserves fill slug w f v = by_side-Conserves fill.side fill slug w f v
