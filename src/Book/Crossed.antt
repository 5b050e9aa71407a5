-- ===== src/Book/Crossed.antt =====
-- When a book of src/polymarket_bot/market/orderbook.py may be used, its sides do not meet.
use claude_route.Base.{
  ℕ, ◌≤◌, ◌<◌, ◌≡◌, refl, ◌==◌, if_keeps, String, Bool, true, false, not, ◌&&◌, ◌||◌, ◌⊎◌, Option,
  none, some, List, [], ◌∷◌, ◌++◌, any, str_eq, arith,
}
use claude_route.Base.Int.{ℤ, pos_part}
use claude_route.Domain.Market.{allowed_tick_sizes}
use claude_route.Book.Levels.{LevelMap, size_at, larger, smaller, max_price, min_price}
use claude_route.Book.{
  InvalidReason, OrderBookState, SnapshotMeta, malformed_snapshot_level, out_of_order,
  malformed_level, unknown_side, best_bid_mismatch, best_ask_mismatch, unsupported_tick_size,
  verify_top, set_tick_size, bid_mismatch, ask_mismatch, invalidate, is_older, is_malformed,
  crosses, accepted, filled, changed, check_crossed, take_snapshot, apply_snapshot, take_level,
  apply_level,
}
use claude_route.Book.Sound.{
  Call, call, invalidate_with, receive_snapshot, receive_level, compare_top, change_tick,
  look_for_cross,
}

-- Every bid with shares is below every ask with shares.
abbrev pub Uncrossed : OrderBookState → Type 0
Uncrossed b = (p q : ℕ) → 0 < size_at p b.bids → 0 < size_at q b.asks → p < q

abbrev AtMost : ℕ → Option ℕ → Type 0
AtMost p none = ⊥
AtMost p (some m) = p ≤ m

abbrev AtLeast : ℕ → Option ℕ → Type 0
AtLeast p none = ⊥
AtLeast p (some m) = m ≤ p

larger-AtMost : (p q : ℕ) (o : Option ℕ) → (p ≡ q) ⊎ AtMost p o → p ≤ larger q o
larger-AtMost p q none h = ground arith
larger-AtMost p q (some m) h = ground arith

smaller-AtLeast : (p q : ℕ) (o : Option ℕ) → (p ≡ q) ⊎ AtLeast p o → smaller q o ≤ p
smaller-AtLeast p q none h = ground arith
smaller-AtLeast p q (some m) h = ground arith

max_price-AtMost : (p : ℕ) (ls : LevelMap) → 0 < size_at p ls → AtMost p (max_price ls)
max_price-AtMost p [] h = ground arith
max_price-AtMost p ((q, s) ∷ ls) h =
    larger-AtMost p q (max_price ls) (ground (arith, max_price-AtMost p ls))

min_price-AtLeast : (p : ℕ) (ls : LevelMap) → 0 < size_at p ls → AtLeast p (min_price ls)
min_price-AtLeast p [] h = ground arith
min_price-AtLeast p ((q, s) ∷ ls) h =
    smaller-AtLeast p q (min_price ls) (ground (arith, min_price-AtLeast p ls))

crosses_apart :
    (p q : ℕ) (bid ask : Option ℕ) → AtMost p bid → AtLeast q ask → crosses bid ask ≡ false → p < q
crosses_apart p q none ask g h e = elim g [ ]
crosses_apart p q (some bid) none g h e = elim h [ ]
crosses_apart p q (some bid) (some ask) g h e = ground arith

abbrev Safe : OrderBookState → Type 0
Safe b = b.valid ≡ true → Uncrossed b

invalidate-Safe : (why : InvalidReason) (b : OrderBookState) → Safe (invalidate why b)
invalidate-Safe why b h = ground arith

-- Where `check_crossed` leaves a book valid, no bid reaches an ask.
pub check_crossed-Uncrossed :
    (b : OrderBookState) → (check_crossed b).valid ≡ true → Uncrossed (check_crossed b)
unfolding check_crossed
check_crossed-Uncrossed b h p q g k = ground (
  arith,
  crosses_apart p q (max_price b.bids) (min_price b.asks),
  max_price-AtMost p b.bids,
  min_price-AtLeast q b.asks,
)

take_snapshot-Uncrossed :
    (bids asks : List (ℤ × ℤ)) (m : SnapshotMeta) (b : OrderBookState)
    → (take_snapshot bids asks m b).valid ≡ true
    → Uncrossed (take_snapshot bids asks m b)
unfolding take_snapshot
take_snapshot-Uncrossed bids asks m b h =
    check_crossed-Uncrossed (accepted (filled bids asks m b)) h

apply_snapshot-Safe :
    (bids asks : List (ℤ × ℤ)) (m : SnapshotMeta) (b : OrderBookState)
    → Safe b
    → Safe (apply_snapshot bids asks m b)
unfolding apply_snapshot
apply_snapshot-Safe bids asks m b g = if_keeps Safe (b.valid && is_older m.exchange_ms b) g (
    if_keeps Safe (any is_malformed (bids ++ asks)) (invalidate-Safe malformed_snapshot_level b)
      (take_snapshot-Uncrossed bids asks m b))

take_level-Uncrossed :
    (is_bid : Bool) (price size received_ms : ℕ) (exchange_ms : Option ℕ) (b : OrderBookState)
    → (take_level is_bid price size received_ms exchange_ms true b).valid ≡ true
    → Uncrossed (take_level is_bid price size received_ms exchange_ms true b)
unfolding take_level
take_level-Uncrossed is_bid price size received_ms exchange_ms b h =
    check_crossed-Uncrossed (changed is_bid price size received_ms exchange_ms b) h

apply_level-Safe :
    (side : String) (price size : ℤ) (received_ms : ℕ) (exchange_ms : Option ℕ) (b : OrderBookState)
    → Safe b
    → Safe (apply_level side price size received_ms exchange_ms true b)
unfolding apply_level
apply_level-Safe side price size received_ms exchange_ms b g = if_keeps Safe (not b.valid) g (
    if_keeps Safe (is_older exchange_ms b) (invalidate-Safe out_of_order b) (
      if_keeps Safe (is_malformed (price, size)) (invalidate-Safe malformed_level b) (
        if_keeps Safe (not (str_eq side "BUY" || str_eq side "SELL"))
          (invalidate-Safe unknown_side b)
          (take_level-Uncrossed (str_eq side "BUY") (pos_part price) (pos_part size) received_ms
            exchange_ms b))))

verify_top-Safe : (bid ask : Option ℕ) (b : OrderBookState) → Safe b → Safe (verify_top bid ask b)
unfolding verify_top
verify_top-Safe bid ask b g = if_keeps Safe (not b.valid) g (
    if_keeps Safe (bid_mismatch bid b.bids) (invalidate-Safe best_bid_mismatch b)
      (if_keeps Safe (ask_mismatch ask b.asks) (invalidate-Safe best_ask_mismatch b) g))

set_tick_size-Safe : (tick : ℕ) (b : OrderBookState) → Safe b → Safe (set_tick_size tick b)
unfolding set_tick_size
set_tick_size-Safe tick b g =
    if_keeps Safe (any (λ t. t == tick) allowed_tick_sizes) g
      (invalidate-Safe unsupported_tick_size b)

-- The calls that end by looking for a cross: a snapshot, a single level, the end of a batch. A
-- level of a batch is the one call that does not, and leaves it to the end of the batch.
abbrev pub IsBatchLevel : Call → Type 0
IsBatchLevel (receive_level side price size received_ms exchange_ms check) = check ≡ false
IsBatchLevel _ = ⊥

-- No call but a level inside a batch can leave a book valid with a bid that reaches an ask, where
-- it was not valid or not crossed before.
pub call-Uncrossed :
    (c : Call) (b : OrderBookState)
    → (IsBatchLevel c → ⊥)
    → (b.valid ≡ true → Uncrossed b)
    → (call c b).valid ≡ true
    → Uncrossed (call c b)
call-Uncrossed (invalidate_with why) b l g = invalidate-Safe why b
call-Uncrossed (receive_snapshot bids asks m) b l g = apply_snapshot-Safe bids asks m b g
call-Uncrossed (receive_level side price size received_ms exchange_ms true) b l g =
    apply_level-Safe side price size received_ms exchange_ms b g
call-Uncrossed (receive_level side price size received_ms exchange_ms false) b l g =
    elim (l refl) [ ]
call-Uncrossed (compare_top bid ask) b l g = verify_top-Safe bid ask b g
call-Uncrossed (change_tick tick) b l g = set_tick_size-Safe tick b g
call-Uncrossed look_for_cross b l g = check_crossed-Uncrossed b

-- The levels of one event, each applied without looking for a cross, and the look at its end.
abbrev pub batch : List (String × ℤ × ℤ) → ℕ → Option ℕ → OrderBookState → OrderBookState
batch [] received_ms exchange_ms b = check_crossed b
batch ((side, price, size) ∷ ls) received_ms exchange_ms b =
    batch ls received_ms exchange_ms (apply_level side price size received_ms exchange_ms false b)

pub batch-Uncrossed :
    (ls : List (String × ℤ × ℤ)) (received_ms : ℕ) (exchange_ms : Option ℕ) (b : OrderBookState)
    → (batch ls received_ms exchange_ms b).valid ≡ true
    → Uncrossed (batch ls received_ms exchange_ms b)
batch-Uncrossed [] received_ms exchange_ms b h = check_crossed-Uncrossed b h
batch-Uncrossed ((side, price, size) ∷ ls) received_ms exchange_ms b h =
    batch-Uncrossed ls received_ms exchange_ms
      (apply_level side price size received_ms exchange_ms false b) h
