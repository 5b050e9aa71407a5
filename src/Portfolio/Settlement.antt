-- ===== src/Portfolio/Settlement.antt =====
-- Proofs on the money that `settle` moves, and on sequences of fills, settlements and marks.
use claude_route.Base.{
  ap, ℕ, ◌≡◌, inl, inr, refl, String, Option, some, List, [], ◌∷◌, arith, str_eq, eq_iff,
  Bool-cases, ◌==◌, not, ◌||◌,
}
use claude_route.Base.Int.{ℤ, pos, ◌+ℤ◌, ◌-ℤ◌, int_laws, pos_part, neg_part}
use claude_route.Base.Dict.{lookup, lookup-insert, values}
use claude_route.Base.Dict.Distinct.{insert-Distinct}
use claude_route.Domain.Orders.{Fill}
use claude_route.Portfolio.{
  Portfolio, Position, ExitKind, with_cash, close, apply_fill, settled, settle_writes,
  settle_position, settle_each, settle, exposure_usd,
}
use claude_route.Portfolio.Live.{Live, Live-erase, Live-values}
use claude_route.Portfolio.Dicts.{insert-Keyed, exposure_usd-insert}
use claude_route.Portfolio.Conservation.{
  IsValid, Conserves, Conserves-refl, Conserves-trans, close-Conserves, apply_fill-Conserves,
}
use claude_route.Portfolio.{mark}

settle_writes-Conserves :
    (winner : String) (p : Position) (f : Portfolio)
    → IsValid f
    → lookup p.token_id f.positions ≡ some p
    → Conserves f (settle_writes winner p f)
unfolding settle_writes
settle_writes-Conserves winner p f v e = record {
  valid = record {
    distinct = insert-Distinct p.token_id (settled winner p) f.positions v.distinct;
    keyed = insert-Keyed p.token_id (settled winner p) f.positions refl v.keyed;
  };
  same = omega (int_laws, exposure_usd-insert p.token_id (settled winner p) p f.positions e);
}

lookup-settled :
    (winner : String) (p : Position) (f : Portfolio)
    → lookup p.token_id (settle_writes winner p f).positions ≡ some (settled winner p)
unfolding settle_writes
lookup-settled winner p f = ground (
  arith,
  lookup-insert p.token_id p.token_id (settled winner p) f.positions,
  eq_iff p.token_id p.token_id,
)

-- One round of the loop of `settle`.
settle_position-Conserves :
    (winner : String) (ts : ℕ) (p : Position) (f : Portfolio)
    → IsValid f
    → lookup p.token_id f.positions ≡ some p
    → Conserves f (settle_position winner ts p f)
unfolding settle_position
settle_position-Conserves winner ts p f v e =
    let written = settle_writes-Conserves winner p f v e in
    Conserves-trans f (settle_writes winner p f) _ written (
      close-Conserves (settled winner p) ts ExitKind.settlement (settle_writes winner p f)
        written.valid (lookup-settled winner p f) refl)

settle_position-Live :
    (winner : String) (ts : ℕ) (p : Position) (ps : List Position) (f : Portfolio)
    → Live (p ∷ ps) f.positions
    → Live ps (settle_position winner ts p f).positions
unfolding settle_position close settle_writes
settle_position-Live winner ts p ps f l =
    Live-erase p.token_id (settled winner p) ps f.positions l.1 l.2

settle_each-Conserves :
    (condition winner : String) (ts : ℕ) (ps : List Position) (f : Portfolio)
    → IsValid f
    → Live ps f.positions
    → Conserves f (settle_each condition winner ts ps f)
unfolding settle_each
settle_each-Conserves condition winner ts [] f v l = Conserves-refl f v
settle_each-Conserves condition winner ts (p ∷ ps) f v l =
    elim (Bool-cases (not (str_eq p.condition_id condition) || p.shares == 0)) [
      | inl skip ↦ rw skip (settle_each-Conserves condition winner ts ps f v l.2)
      | inr pay ↦ rw pay (
          let paid = settle_position-Conserves winner ts p f v l.0 in
          Conserves-trans f (settle_position winner ts p f) _ paid (
            settle_each-Conserves condition winner ts ps (settle_position winner ts p f) paid.valid
              (settle_position-Live winner ts p ps f l)))
    ]

-- Settling a market keeps one position to a token, and makes and loses no money.
pub settle-Conserves :
    (condition winner : String) (ts : ℕ) (f : Portfolio)
    → IsValid f
    → Conserves f (settle condition winner ts f)
unfolding settle
settle-Conserves condition winner ts f v =
    settle_each-Conserves condition winner ts (values f.positions) f v
      (Live-values f.positions v.distinct v.keyed)

-- What happens to a portfolio.
pub data Event : Type 0 where
  fill_event : Fill → String → ℕ → Event
  settle_event : String → String → ℕ → Event
  mark_event : List (String × Option ℕ) → ℕ → Event

unfoldable pub on_event : Event → Portfolio → Portfolio
on_event (fill_event x slug w) f = (apply_fill x slug w f).1
on_event (settle_event condition winner ts) f = settle condition winner ts f
on_event (mark_event bids now) f = mark bids now f

-- Events one after the other; a refused fill ends only itself.
unfoldable pub run : Portfolio → List Event → Portfolio
run f [] = f
run f (e ∷ es) = run (on_event e f) es

mark-Conserves :
    (bids : List (String × Option ℕ)) (now : ℕ) (f : Portfolio)
    → IsValid f
    → Conserves f (mark bids now f)
unfolding mark
mark-Conserves bids now f v = record {
  valid = record { distinct = v.distinct; keyed = v.keyed };
  same = refl;
}

on_event-Conserves : (e : Event) (f : Portfolio) → IsValid f → Conserves f (on_event e f)
unfolding on_event
on_event-Conserves (fill_event x slug w) f v = apply_fill-Conserves x slug w f v
on_event-Conserves (settle_event condition winner ts) f v = settle-Conserves condition winner ts f v
on_event-Conserves (mark_event bids now) f v = mark-Conserves bids now f v

run-Conserves : (f : Portfolio) (es : List Event) → IsValid f → Conserves f (run f es)
unfolding run
run-Conserves f [] v = Conserves-refl f v
run-Conserves f (e ∷ es) v =
    let done = on_event-Conserves e f v in
    Conserves-trans f (on_event e f) _ done (run-Conserves (on_event e f) es done.valid)

solve_cash : (c e r k : ℤ) → c +ℤ e -ℤ r ≡ k +ℤ pos 0 -ℤ pos 0 → c ≡ k +ℤ r -ℤ e
solve_cash c e r k h = all_parts (ap pos_part h) (ap neg_part h)
  where
    all_parts :
        pos_part (c +ℤ e -ℤ r) ≡ pos_part (k +ℤ pos 0 -ℤ pos 0)
        → neg_part (c +ℤ e -ℤ r) ≡ neg_part (k +ℤ pos 0 -ℤ pos 0)
        → c ≡ k +ℤ r -ℤ e
    all_parts p q = omega int_laws

-- A portfolio that starts with some cash and no position has, after any fills, settlements and
-- marks in any order, cash equal to that sum plus the realized profit less the cost of what is held.
pub cash_identity :
    (cash : ℤ) (now : ℕ) (es : List Event)
    → let f = run (with_cash cash now) es in
      f.cash_usd ≡ cash +ℤ f.realized_pnl_usd -ℤ pos (exposure_usd f.positions)
unfolding with_cash exposure_usd
cash_identity cash now es =
    let f = run (with_cash cash now) es in
    solve_cash f.cash_usd (pos (exposure_usd f.positions)) f.realized_pnl_usd cash
      (run-Conserves (with_cash cash now) es (record { distinct = tt; keyed = tt })).same
