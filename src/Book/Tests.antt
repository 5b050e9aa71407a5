-- ===== src/Book/Tests.antt =====
-- The order book on concrete messages.
use claude_route.Base.{ℕ, ◌≡◌, ◌⊎◌, refl, true, false, Option, none, some, [], ◌∷◌, str_eq}
use claude_route.Base.Int.{pos, negsuc}
use claude_route.Book.Levels.{set_level, sort_descending, sort_ascending}
use claude_route.Book.Depth.{notional, near, depth_usd-near}
use claude_route.Book.Snapshot.{depth_usd, OrderBookSnapshot, imbalance, is_crossed, mid, spread}
use claude_route.Book.{
  OrderBookState, SnapshotMeta, new, check_crossed, set_tick_size, take_snapshot, apply_snapshot,
  take_level, apply_level, verify_top, snapshot, out_of_order, crossed_book, best_bid_mismatch,
  malformed_level,
}
use claude_route.Book.Sound.{
  IsSound, Call, calls, call, receive_snapshot, receive_level, compare_top, calls_new-IsSound,
}
use claude_route.Book.Crossed.{Uncrossed, IsBatchLevel, call-Uncrossed}
use claude_route.Book.Refines.{accepts, IsUpdate, apply_level-IsUpdate}
use claude_route.Book.Best.{Shows, snapshot-Shows}

abbrev details : Option ℕ → SnapshotMeta
details tick = record {
  received_ms = 1_000;
  exchange_ms = some 990;
  book_hash = none;
  tick_size = tick;
}

abbrev first_snapshot : Call
first_snapshot =
    receive_snapshot
      ((pos 4_800, pos 5_000_000) ∷ (pos 4_900, pos 2_000_000) ∷ (pos 4_700, pos 0) ∷ [])
      ((pos 5_100, pos 3_000_000) ∷ (pos 5_300, pos 1_000_000) ∷ []) (details (some 100))

abbrev book : OrderBookState
book = calls (first_snapshot ∷ []) (new "up" 0)

valid-book : book.valid ≡ true
unfolding new apply_snapshot take_snapshot check_crossed set_tick_size set_level
valid-book = refl

crossed :
    (call
      (receive_level "BUY" (pos 5_100) (pos 1_000_000) 1_010 (some 1_000) true)
      book).invalid_reason
    ≡ crossed_book
unfolding new apply_snapshot take_snapshot check_crossed set_tick_size set_level apply_level
    take_level
crossed = refl

stale :
    (call
      (receive_level "BUY" (pos 4_000) (pos 1_000_000) 1_010 (some 980) true)
      book).invalid_reason
    ≡ out_of_order
unfolding new apply_snapshot take_snapshot check_crossed set_tick_size set_level apply_level
    take_level
stale = refl

negative :
    (call (receive_level "SELL" (pos 6_000) (negsuc 0) 1_010 none true) book).invalid_reason
    ≡ malformed_level
unfolding new apply_snapshot take_snapshot check_crossed set_tick_size set_level apply_level
    take_level
negative = refl

mismatch : (call (compare_top (some 4_800) none) book).invalid_reason ≡ best_bid_mismatch
unfolding new apply_snapshot take_snapshot check_crossed set_tick_size set_level verify_top
mismatch = refl

-- 0.02 is no tick size of Polymarket: a snapshot that names it leaves the book valid.
odd_tick : (apply_snapshot [] [] (details (some 200)) book).valid ≡ true
unfolding new apply_snapshot take_snapshot check_crossed set_tick_size set_level
odd_tick = refl

odd_tick_alone : (set_tick_size 200 book).valid ≡ false
unfolding new apply_snapshot take_snapshot check_crossed set_tick_size set_level
odd_tick_alone = refl

abbrev shown : OrderBookSnapshot
shown = record {
  token_id = "up";
  bids = (4_900, 2_000_000) ∷ (4_800, 5_000_000) ∷ [];
  asks = (5_100, 3_000_000) ∷ (5_300, 1_000_000) ∷ [];
  received_ms = 1_000;
  exchange_ms = some 990;
  book_hash = none;
  tick_size = some 100;
  last_trade_price = none;
  sequence = 1;
}

snapshot-book : snapshot book ≡ some shown
unfolding new apply_snapshot take_snapshot check_crossed set_tick_size set_level snapshot
    sort_descending sort_ascending
snapshot-book = refl

imbalance-shown : imbalance 5 shown ≡ some (record { num = pos 3_000_000; den = 11_000_000 })
unfolding imbalance
imbalance-shown = refl

views_of_shown :
    (is_crossed shown ≡ false)
    × (spread shown ≡ some (pos 200))
    × (mid shown ≡ some (record { num = 10_000; den = 2 }))
unfolding is_crossed spread mid
views_of_shown = (refl, refl, refl)

IsSound-book : IsSound book
IsSound-book = calls_new-IsSound "up" 0 (first_snapshot ∷ [])

calls_new-IsSound_example : IsSound book
calls_new-IsSound_example = calls_new-IsSound "up" 0 (first_snapshot ∷ [])

not_batch : IsBatchLevel first_snapshot → ⊥
not_batch h = h

invalid-new : (new "up" 0).valid ≡ true → Uncrossed (new "up" 0)
unfolding new
invalid-new h p q g k = elim g [ ]

call-Uncrossed_example : Uncrossed book
call-Uncrossed_example = call-Uncrossed first_snapshot (new "up" 0) not_batch invalid-new valid-book

apply_level-IsUpdate_example :
    let b' = apply_level "SELL" (pos 5_300) (pos 0) 1_010 (some 1_000) true book in
    ((accepts "SELL" (pos 5_300) (pos 0) (some 1_000) book ≡ true)
      × IsUpdate (str_eq "SELL" "BUY") 5_300 0 book b')
    ⊎ ((accepts "SELL" (pos 5_300) (pos 0) (some 1_000) book ≡ false)
        × (b'.bids ≡ book.bids)
        × (b'.asks ≡ book.asks)
        × (b'.valid ≡ false))
apply_level-IsUpdate_example =
    apply_level-IsUpdate "SELL" (pos 5_300) (pos 0) 1_010 (some 1_000) true book IsSound-book

snapshot-Shows_example :
    ((book.valid ≡ false) × (snapshot book ≡ none))
    ⊎ ((v : OrderBookSnapshot) × (book.valid ≡ true) × (snapshot book ≡ some v) × Shows book v)
snapshot-Shows_example = snapshot-Shows book IsSound-book

depth_usd-near_example : depth_usd true 100 shown ≡ notional (near 100 shown.asks)
depth_usd-near_example = depth_usd-near true 100 shown ((refl, tt), (tt, tt)) ((refl, tt), (tt, tt))
