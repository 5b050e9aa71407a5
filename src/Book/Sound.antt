-- ===== src/Book/Sound.antt =====
-- What is stored of a book of src/polymarket_bot/market/orderbook.py, however it was built.
use claude_route.Base.{
  ℕ, ◌<◌, ◌≡◌, refl, String, Bool, true, false, Option, none, some, List, [], ◌∷◌, ◌++◌, any,
  any-append, str_eq, is_some, if◌then◌else◌, arith,
}
use claude_route.Base.Int.{ℤ, pos, pos_part, ltb_ℤ}
use claude_route.Domain.Orders.{one_price}
use claude_route.Book.Levels.{
  LevelMap, AreLevels, set_level, set_level-AreLevels, pop_level-AreLevels,
}
use claude_route.Book.{
  InvalidReason, OrderBookState, SnapshotMeta, new, invalidate, is_malformed, collect,
  check_crossed, set_tick_size, set_tick, put_level, take_snapshot, apply_snapshot, take_level,
  apply_level, verify_top, accepted, filled, changed,
}

-- Prices strictly between 0 and 1, no level without shares, no price twice on a side, and a time of
-- receipt where the book is valid.
abbrev pub IsSound : OrderBookState → Type 0
IsSound b =
    AreLevels one_price b.bids
    × AreLevels one_price b.asks
    × (b.valid ≡ true → is_some b.received_ms ≡ true)

-- The calls that change a book.
pub data Call : Type 0 where
  invalidate_with : InvalidReason → Call
  receive_snapshot : List (ℤ × ℤ) → List (ℤ × ℤ) → SnapshotMeta → Call
  receive_level : String → ℤ → ℤ → ℕ → Option ℕ → Bool → Call
  compare_top : Option ℕ → Option ℕ → Call
  change_tick : ℕ → Call
  look_for_cross : Call

abbrev pub call : Call → OrderBookState → OrderBookState
call (invalidate_with why) b = invalidate why b
call (receive_snapshot bids asks m) b = apply_snapshot bids asks m b
call (receive_level side price size received_ms exchange_ms check) b =
    apply_level side price size received_ms exchange_ms check b
call (compare_top bid ask) b = verify_top bid ask b
call (change_tick tick) b = set_tick_size tick b
call look_for_cross b = check_crossed b

abbrev pub calls : List Call → OrderBookState → OrderBookState
calls [] b = b
calls (c ∷ cs) b = calls cs (call c b)

collect-AreLevels :
    (found : LevelMap) (ls : List (ℤ × ℤ))
    → any is_malformed ls ≡ false
    → AreLevels one_price found
    → AreLevels one_price (collect found ls)
collect-AreLevels found [] h a = a
collect-AreLevels found ((price, size) ∷ ls) h a =
    collect-AreLevels
      (if ltb_ℤ (pos 0) size then set_level (pos_part price) (pos_part size) found else found) ls
      (ground arith)
      (ground (arith, set_level-AreLevels one_price (pos_part price) (pos_part size) found))

check_crossed-IsSound : (b : OrderBookState) → IsSound b → IsSound (check_crossed b)
unfolding check_crossed
check_crossed-IsSound b h = ground arith

set_tick_size-IsSound : (tick : ℕ) (b : OrderBookState) → IsSound b → IsSound (set_tick_size tick b)
unfolding set_tick_size
set_tick_size-IsSound tick b h = ground arith

set_tick-levels :
    (tick : Option ℕ) (b : OrderBookState)
    → ((set_tick tick b).bids ≡ b.bids)
      × ((set_tick tick b).asks ≡ b.asks)
      × ((set_tick tick b).received_ms ≡ b.received_ms)
unfolding set_tick_size
set_tick-levels none b = (refl, refl, refl)
set_tick-levels (some tick) b = ground arith

abbrev levelled : List (ℤ × ℤ) → List (ℤ × ℤ) → SnapshotMeta → OrderBookState → OrderBookState
levelled bids asks m b = record b {
  bids = collect [] bids;
  asks = collect [] asks;
  received_ms = some m.received_ms;
  exchange_ms = m.exchange_ms;
  book_hash = m.book_hash;
}

take_snapshot-IsSound :
    (bids asks : List (ℤ × ℤ)) (m : SnapshotMeta) (b : OrderBookState)
    → any is_malformed (bids ++ asks) ≡ false
    → IsSound (take_snapshot bids asks m b)
unfolding take_snapshot
take_snapshot-IsSound bids asks m b h =
    let (on_bids, on_asks, at) = set_tick-levels m.tick_size (levelled bids asks m b) in
    let split = any-append is_malformed bids asks in
    check_crossed-IsSound (accepted (filled bids asks m b)) (
      rw on_bids (collect-AreLevels [] bids (ground arith) tt),
      rw on_asks (collect-AreLevels [] asks (ground arith) tt),
      λ _. rw at refl,
    )

apply_snapshot-IsSound :
    (bids asks : List (ℤ × ℤ)) (m : SnapshotMeta) (b : OrderBookState)
    → IsSound b
    → IsSound (apply_snapshot bids asks m b)
unfolding apply_snapshot
apply_snapshot-IsSound bids asks m b h = ground (arith, take_snapshot-IsSound bids asks m b)

put_level-AreLevels :
    (price size : ℕ) (ls : LevelMap)
    → 0 < price
    → price < one_price
    → AreLevels one_price ls
    → AreLevels one_price (put_level price size ls)
put_level-AreLevels price size ls a b h =
    ground
      (arith, set_level-AreLevels one_price price size ls, pop_level-AreLevels one_price price ls)

take_level-IsSound :
    (is_bid : Bool) (price size received_ms : ℕ) (exchange_ms : Option ℕ) (check : Bool)
    (b : OrderBookState)
    → 0 < price
    → price < one_price
    → IsSound b
    → IsSound (take_level is_bid price size received_ms exchange_ms check b)
unfolding take_level
take_level-IsSound is_bid price size received_ms exchange_ms check b l u h =
    let b' = changed is_bid price size received_ms exchange_ms b in
    let sound : IsSound b' = (
      ground (arith, put_level-AreLevels price size b.bids l u),
      ground (arith, put_level-AreLevels price size b.asks l u),
      λ _. refl,
    ) in
    ground (arith, check_crossed-IsSound b' sound, sound)

apply_level-IsSound :
    (side : String) (price size : ℤ) (received_ms : ℕ) (exchange_ms : Option ℕ) (check : Bool)
    (b : OrderBookState)
    → IsSound b
    → IsSound (apply_level side price size received_ms exchange_ms check b)
unfolding apply_level
apply_level-IsSound side price size received_ms exchange_ms check b h = ground (
  arith,
  take_level-IsSound (str_eq side "BUY") (pos_part price) (pos_part size) received_ms exchange_ms
      check b,
)

verify_top-IsSound :
    (bid ask : Option ℕ) (b : OrderBookState) → IsSound b → IsSound (verify_top bid ask b)
unfolding verify_top
verify_top-IsSound bid ask b h = ground arith

call-IsSound : (c : Call) (b : OrderBookState) → IsSound b → IsSound (call c b)
call-IsSound (invalidate_with why) b h = ground arith
call-IsSound (receive_snapshot bids asks m) b h = apply_snapshot-IsSound bids asks m b h
call-IsSound (receive_level side price size received_ms exchange_ms check) b h =
    apply_level-IsSound side price size received_ms exchange_ms check b h
call-IsSound (compare_top bid ask) b h = verify_top-IsSound bid ask b h
call-IsSound (change_tick tick) b h = set_tick_size-IsSound tick b h
call-IsSound look_for_cross b h = check_crossed-IsSound b h

new-IsSound : (token_id : String) (tolerance : ℕ) → IsSound (new token_id tolerance)
unfolding new
new-IsSound token_id tolerance = (tt, tt, λ h. h)

calls-IsSound : (cs : List Call) (b : OrderBookState) → IsSound b → IsSound (calls cs b)
calls-IsSound [] b h = h
calls-IsSound (c ∷ cs) b h = calls-IsSound cs (call c b) (call-IsSound c b h)

-- Whatever is called on a new book, in whatever order and with whatever arguments, what it stores
-- stays sound: prices strictly between 0 and 1, positive sizes, no price twice on a side, and a
-- time of receipt where it is valid.
pub calls_new-IsSound :
    (token_id : String) (tolerance : ℕ) (cs : List Call)
    → IsSound (calls cs (new token_id tolerance))
calls_new-IsSound token_id tolerance cs =
    calls-IsSound cs (new token_id tolerance) (new-IsSound token_id tolerance)
