-- ===== src/Book.antt =====
-- `OrderBookState` of src/polymarket_bot/market/orderbook.py: one outcome token's book, built from
-- a snapshot and single levels, and usable only while it is valid. A price counts 0.0001 and a size
-- 0.000001 shares; what arrives may be negative, what is stored is not.
pub mod Levels
pub mod Snapshot
pub mod Sound
pub mod Crossed
pub mod Sorted
pub mod Refines
pub mod Best
pub mod Depth
mod Tests
use claude_route.Base.{
  ℕ, suc, ◌+◌, String, Bool, true, false, not, ◌&&◌, ◌||◌, Option, none, some, List, [], ◌∷◌, ◌++◌,
  any, all, is_empty, ltb, leb, ◌==◌, str_eq, value_or, if◌then◌else◌,
}
use claude_route.Base.Int.{ℤ, pos, negsuc, pos_part, ltb_ℤ}
use claude_route.Domain.Orders.{one_price}
use claude_route.Domain.Market.{allowed_tick_sizes}
use claude_route.Book.Levels.{
  LevelMap, set_level, pop_level, max_price, min_price, sort_descending, sort_ascending,
}
use claude_route.Book.Snapshot.{OrderBookSnapshot}

-- What `invalid_reason` says; `other` is a reason that the caller of `invalidate` gives.
pub data InvalidReason : Type 0 where
  no_reason no_snapshot malformed_snapshot_level out_of_order malformed_level unknown_side
        best_bid_mismatch best_ask_mismatch unsupported_tick_size crossed_book :
      InvalidReason
  other : String → InvalidReason

pub record OrderBookState : Type 0 where
  pub token_id : String
  pub bids : LevelMap
  pub asks : LevelMap
  pub valid : Bool
  pub invalid_reason : InvalidReason
  pub received_ms : Option ℕ
  pub exchange_ms : Option ℕ
  pub book_hash : Option String
  pub tick_size : Option ℕ
  pub last_trade_price : Option ℕ
  pub sequence : ℕ
  pub max_out_of_order_ms : ℕ

unfoldable pub new : String → ℕ → OrderBookState
new token_id max_out_of_order_ms = record {
  token_id = token_id;
  bids = [];
  asks = [];
  valid = false;
  invalid_reason = no_snapshot;
  received_ms = none;
  exchange_ms = none;
  book_hash = none;
  tick_size = none;
  last_trade_price = none;
  sequence = 0;
  max_out_of_order_ms = max_out_of_order_ms;
}

abbrev pub invalidate : InvalidReason → OrderBookState → OrderBookState
invalidate reason b = record b { valid = false; invalid_reason = reason }

-- The new time is older than the book's by more than the tolerance.
abbrev pub is_older : Option ℕ → OrderBookState → Bool
is_older none b = false
is_older (some ms) b = ltb (ms + b.max_out_of_order_ms) (value_or b.exchange_ms 0)

-- `not (ZERO < price < Decimal(1)) or size < 0`
abbrev pub is_malformed : ℤ × ℤ → Bool
is_malformed (price, size) =
    not (ltb_ℤ (pos 0) price && ltb_ℤ price (pos one_price)) || ltb_ℤ size (pos 0)

-- `{p: s for p, s in levels if s > 0}`; later entries win
abbrev pub collect : LevelMap → List (ℤ × ℤ) → LevelMap
collect found [] = found
collect found ((price, size) ∷ ls) =
    collect (if ltb_ℤ (pos 0) size then set_level (pos_part price) (pos_part size) found else found)
      ls

abbrev pub crosses : Option ℕ → Option ℕ → Bool
crosses none ask = false
crosses (some bid) none = false
crosses (some bid) (some ask) = leb ask bid

unfoldable pub check_crossed : OrderBookState → OrderBookState
check_crossed b =
    if b.valid && crosses (max_price b.bids) (min_price b.asks)
    then invalidate crossed_book b
    else b

unfoldable pub set_tick_size : ℕ → OrderBookState → OrderBookState
set_tick_size tick b =
    if any (λ t. t == tick) allowed_tick_sizes
    then record b { tick_size = some tick }
    else invalidate unsupported_tick_size b

abbrev pub set_tick : Option ℕ → OrderBookState → OrderBookState
set_tick none b = b
set_tick (some tick) b = set_tick_size tick b

-- What `apply_snapshot` is given behind its two lists of levels.
pub record SnapshotMeta : Type 0 where
  pub received_ms : ℕ
  pub exchange_ms : Option ℕ
  pub book_hash : Option String
  pub tick_size : Option ℕ

-- The assignments of a snapshot whose levels are fine.
abbrev pub filled : List (ℤ × ℤ) → List (ℤ × ℤ) → SnapshotMeta → OrderBookState → OrderBookState
filled bids asks m b = set_tick m.tick_size (record b {
  bids = collect [] bids;
  asks = collect [] asks;
  received_ms = some m.received_ms;
  exchange_ms = m.exchange_ms;
  book_hash = m.book_hash;
})

abbrev pub accepted : OrderBookState → OrderBookState
accepted b = record b { sequence = suc b.sequence; valid = true; invalid_reason = no_reason }

unfoldable pub take_snapshot :
    List (ℤ × ℤ) → List (ℤ × ℤ) → SnapshotMeta → OrderBookState → OrderBookState
take_snapshot bids asks m b = check_crossed (accepted (filled bids asks m b))

unfoldable pub apply_snapshot :
    List (ℤ × ℤ) → List (ℤ × ℤ) → SnapshotMeta → OrderBookState → OrderBookState
apply_snapshot bids asks m b =
    if b.valid && is_older m.exchange_ms b
    then b
    else if any is_malformed (bids ++ asks)
    then invalidate malformed_snapshot_level b
    else take_snapshot bids asks m b

abbrev pub put_level : ℕ → ℕ → LevelMap → LevelMap
put_level price size ls = if size == 0 then pop_level price ls else set_level price size ls

-- `max(exchange_ms, self.exchange_ms or exchange_ms)` where there is a time
abbrev pub later_ms : Option ℕ → Option ℕ → Option ℕ
later_ms none old = old
later_ms (some ms) old = let before = value_or old 0 in some (if ltb ms before then before else ms)

-- The assignments of a level that is fine, on a side that is known.
abbrev pub changed : Bool → ℕ → ℕ → ℕ → Option ℕ → OrderBookState → OrderBookState
changed is_bid price size received_ms exchange_ms b = record b {
  bids = if is_bid then put_level price size b.bids else b.bids;
  asks = if is_bid then b.asks else put_level price size b.asks;
  received_ms = some received_ms;
  exchange_ms = later_ms exchange_ms b.exchange_ms;
  sequence = suc b.sequence;
}

unfoldable pub take_level : Bool → ℕ → ℕ → ℕ → Option ℕ → Bool → OrderBookState → OrderBookState
take_level is_bid price size received_ms exchange_ms check b =
    let b' = changed is_bid price size received_ms exchange_ms b in
    if check then check_crossed b' else b'

unfoldable pub apply_level : String → ℤ → ℤ → ℕ → Option ℕ → Bool → OrderBookState → OrderBookState
apply_level side price size received_ms exchange_ms check b =
    let is_bid = str_eq side "BUY" in
    if not b.valid
    then b
    else if is_older exchange_ms b
    then invalidate out_of_order b
    else if is_malformed (price, size)
    then invalidate malformed_level b
    else if not (is_bid || str_eq side "SELL")
    then invalidate unknown_side b
    else take_level is_bid (pos_part price) (pos_part size) received_ms exchange_ms check b

-- `ours != theirs`, where ours may be None
abbrev pub differs : Option ℕ → ℕ → Bool
differs none theirs = true
differs (some ours) theirs = not (ours == theirs)

-- The echo of the exchange: a best bid of 0 and a best ask of 1 or more say that the side is empty.
abbrev pub bid_mismatch : Option ℕ → LevelMap → Bool
bid_mismatch none ls = false
bid_mismatch (some best) ls = ltb 0 best && differs (max_price ls) best

abbrev pub ask_mismatch : Option ℕ → LevelMap → Bool
ask_mismatch none ls = false
ask_mismatch (some best) ls = ltb best one_price && differs (min_price ls) best

unfoldable pub verify_top : Option ℕ → Option ℕ → OrderBookState → OrderBookState
verify_top best_bid best_ask b =
    if not b.valid
    then b
    else if bid_mismatch best_bid b.bids
    then invalidate best_bid_mismatch b
    else if ask_mismatch best_ask b.asks
    then invalidate best_ask_mismatch b
    else b

abbrev view : ℕ → OrderBookState → OrderBookSnapshot
view received_ms b = record {
  token_id = b.token_id;
  bids = sort_descending b.bids;
  asks = sort_ascending b.asks;
  received_ms = received_ms;
  exchange_ms = b.exchange_ms;
  book_hash = b.book_hash;
  tick_size = b.tick_size;
  last_trade_price = b.last_trade_price;
  sequence = b.sequence;
}

abbrev view_if : Bool → Option ℕ → OrderBookState → Option OrderBookSnapshot
view_if true (some ms) b = some (view ms b)
view_if _ _ b = none

unfoldable pub snapshot : OrderBookState → Option OrderBookSnapshot
snapshot b = view_if b.valid b.received_ms b
