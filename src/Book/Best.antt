-- ===== src/Book/Best.antt =====
-- What the rest of the program sees of a book of src/polymarket_bot/market/orderbook.py: the
-- snapshot, and the best prices that src/polymarket_bot/domain/market.py reads off it.
use claude_route.Base.{
  ℕ, ◌≡◌, refl, true, false, ◌⊎◌, inl, inr, Option, none, some, [], ◌∷◌, is_some, Bool-cases, arith,
}
use claude_route.Book.Levels.{
  LevelMap, SortedBy, size_at, insert_by, sort_by, is_above, is_below, larger, smaller,
  sort_descending, sort_ascending, max_price, min_price,
}
use claude_route.Book.Snapshot.{OrderBookSnapshot, best_bid, best_ask, first_price}
use claude_route.Book.{OrderBookState, view, snapshot}
use claude_route.Book.Sound.{IsSound}
use claude_route.Book.Sorted.{sort_by-size_at, sort_by-SortedBy, is_above-IsOrder, is_below-IsOrder}

is_some-some : (o : Option ℕ) → is_some o ≡ true → (n : ℕ) × (o ≡ some n)
is_some-some none h = ground arith
is_some-some (some n) h = (n, refl)

first_price-insert_above :
    (p s : ℕ) (ls : LevelMap)
    → first_price (insert_by is_above p s ls) ≡ some (larger p (first_price ls))
first_price-insert_above p s [] = refl
first_price-insert_above p s ((q, t) ∷ ls) = ground arith

first_price-insert_below :
    (p s : ℕ) (ls : LevelMap)
    → first_price (insert_by is_below p s ls) ≡ some (smaller p (first_price ls))
first_price-insert_below p s [] = refl
first_price-insert_below p s ((q, t) ∷ ls) = ground arith

pub first_price-sort_above : (ls : LevelMap) → first_price (sort_by is_above ls) ≡ max_price ls
first_price-sort_above [] = refl
first_price-sort_above ((p, s) ∷ ls) =
    rw (first_price-insert_above p s (sort_by is_above ls), first_price-sort_above ls) refl

pub first_price-sort_below : (ls : LevelMap) → first_price (sort_by is_below ls) ≡ min_price ls
first_price-sort_below [] = refl
first_price-sort_below ((p, s) ∷ ls) =
    rw (first_price-insert_below p s (sort_by is_below ls), first_price-sort_below ls) refl

-- The view shows the book: the same sizes at the same prices, best prices first.
abbrev pub Shows : OrderBookState → OrderBookSnapshot → Type 0
Shows b v =
    SortedBy is_above v.bids
    × SortedBy is_below v.asks
    × ((p : ℕ) → size_at p v.bids ≡ size_at p b.bids)
    × ((p : ℕ) → size_at p v.asks ≡ size_at p b.asks)
    × (best_bid v ≡ max_price b.bids)
    × (best_ask v ≡ min_price b.asks)

view-Shows : (ms : ℕ) (b : OrderBookState) → IsSound b → Shows b (view ms b)
unfolding sort_descending sort_ascending
view-Shows ms b (bids, asks, at) = (
  sort_by-SortedBy is_above is_above-IsOrder b.bids bids,
  sort_by-SortedBy is_below is_below-IsOrder b.asks asks,
  (sort_by-size_at is_above b.bids bids).1,
  (sort_by-size_at is_below b.asks asks).1,
  first_price-sort_above b.bids,
  first_price-sort_below b.asks,
)

-- A sound book that is not valid has no snapshot. A valid one has a snapshot that shows the same
-- size at every price, bids from the highest price down and asks from the lowest up, so that its
-- best bid is the highest bid of the book and its best ask the lowest ask.
pub snapshot-Shows :
    (b : OrderBookState)
    → IsSound b
    → ((b.valid ≡ false) × (snapshot b ≡ none))
      ⊎ ((v : OrderBookSnapshot) × (b.valid ≡ true) × (snapshot b ≡ some v) × Shows b v)
unfolding snapshot
snapshot-Shows b h = elim (Bool-cases b.valid) [
  | inl e ↦
      let (ms, at) = is_some-some b.received_ms (h.2 e) in
      inr (view ms b, e, rw (e, at) refl, view-Shows ms b h)
  | inr e ↦ inl (e, rw e refl)
]
