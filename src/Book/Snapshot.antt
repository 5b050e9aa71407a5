-- ===== src/Book/Snapshot.antt =====
-- `OrderBookSnapshot` of src/polymarket_bot/domain/market.py and what is read off it. Bids stand
-- best (highest) first, asks best (lowest) first. A price counts 0.0001, a size 0.000001 shares, so
-- their product counts 1e-10 USD.
use claude_route.Base.{
  ℕ, ◌+◌, ◌-◌, ◌*◌, String, Bool, false, Option, none, some, [], ◌∷◌, ltb, leb, ◌==◌, if◌then◌else◌,
}
use claude_route.Base.Int.{ℤ, sub_ℕ}
use claude_route.Domain.Market.{Fraction}
use claude_route.Book.Levels.{LevelMap}

pub record OrderBookSnapshot : Type 0 where
  pub token_id : String
  pub bids : LevelMap
  pub asks : LevelMap
  pub received_ms : ℕ
  pub exchange_ms : Option ℕ
  pub book_hash : Option String
  pub tick_size : Option ℕ
  pub last_trade_price : Option ℕ
  pub sequence : ℕ

abbrev pub first_price : LevelMap → Option ℕ
first_price [] = none
first_price ((p, s) ∷ ls) = some p

abbrev pub best_bid : OrderBookSnapshot → Option ℕ
best_bid b = first_price b.bids

abbrev pub best_ask : OrderBookSnapshot → Option ℕ
best_ask b = first_price b.asks

abbrev both {ℓ} : {A : Type ℓ} → (ℕ → ℕ → A) → Option ℕ → Option ℕ → Option A
both f (some bid) (some ask) = some (f bid ask)
both f _ _ = none

-- The mid is the fraction num / den of a price unit.
unfoldable pub mid : OrderBookSnapshot → Option Fraction
mid b = both (λ bid ask. record { num = bid + ask; den = 2 }) (best_bid b) (best_ask b)

unfoldable pub spread : OrderBookSnapshot → Option ℤ
spread b = both (λ bid ask. sub_ℕ ask bid) (best_bid b) (best_ask b)

abbrev holds : Option Bool → Bool
holds none = false
holds (some x) = x

unfoldable pub is_crossed : OrderBookSnapshot → Bool
is_crossed b = holds (both (λ bid ask. leb ask bid) (best_bid b) (best_ask b))

abbrev pub distance : ℕ → ℕ → ℕ
distance p q = (p - q) + (q - p)

-- The loop of `depth_usd`, which stops at the first level that is too far away
abbrev pub depth_from : ℕ → ℕ → LevelMap → ℕ
depth_from best within [] = 0
depth_from best within ((p, s) ∷ ls) =
    let rest = depth_from best within ls in if ltb within (distance p best) then 0 else p * s + rest

abbrev pub depth_of : ℕ → LevelMap → ℕ
depth_of within [] = 0
depth_of within ((p, s) ∷ ls) = depth_from p within ((p, s) ∷ ls)

-- `is_ask` is `side == "ask"`.
unfoldable pub depth_usd : Bool → ℕ → OrderBookSnapshot → ℕ
depth_usd is_ask within b = depth_of within (if is_ask then b.asks else b.bids)

-- `sum(lvl.size for lvl in levels[:n])`
abbrev pub top_size : ℕ → LevelMap → ℕ
top_size n [] = 0
top_size n ((p, s) ∷ ls) = let rest = top_size (n - 1) ls in if n == 0 then 0 else s + rest

pub record SignedFraction : Type 0 where
  pub num : ℤ
  pub den : ℕ

unfoldable pub imbalance : ℕ → OrderBookSnapshot → Option SignedFraction
imbalance levels b =
    let bid = top_size levels b.bids in
    let ask = top_size levels b.asks in
    if bid + ask == 0 then none else some (record { num = sub_ℕ bid ask; den = bid + ask })
