-- ===== src/Book/Refines.antt =====
-- `apply_level` of src/polymarket_bot/market/orderbook.py against the abstract view of a book: the
-- size that is offered at each price.
use claude_route.Base.{
  ℕ, ◌≡◌, String, Bool, true, false, not, ◌&&◌, ◌||◌, ◌⊎◌, inl, inr, Option, str_eq, ◌==◌,
  Bool-cases, if◌then◌else◌, arith,
}
use claude_route.Base.Int.{ℤ, pos_part}
use claude_route.Domain.Orders.{one_price}
use claude_route.Book.Levels.{LevelMap, AreLevels, size_at, size_at-set_level, size_at-pop_level}
use claude_route.Book.{
  OrderBookState, is_older, is_malformed, check_crossed, put_level, changed, take_level,
  apply_level,
}
use claude_route.Book.Sound.{IsSound}

-- When `apply_level` takes a level.
abbrev pub accepts : String → ℤ → ℤ → Option ℕ → OrderBookState → Bool
accepts side price size exchange_ms b =
    b.valid
    && not (is_older exchange_ms b)
    && not (is_malformed (price, size))
    && (str_eq side "BUY" || str_eq side "SELL")

-- The abstract update of a side: the one price gets the new size.
abbrev pub update : Bool → ℕ → ℕ → (ℕ → ℕ) → ℕ → ℕ
update here price size f q = if here && price == q then size else f q

-- The sizes of b' are those of b, with the one level changed on its side.
abbrev pub IsUpdate : Bool → ℕ → ℕ → OrderBookState → OrderBookState → Type 0
IsUpdate is_bid price size b b' =
    (q : ℕ)
    → (size_at q b'.bids ≡ update is_bid price size (λ p. size_at p b.bids) q)
      × (size_at q b'.asks ≡ update (not is_bid) price size (λ p. size_at p b.asks) q)

size_at-put_level :
    (price size q : ℕ) (ls : LevelMap)
    → AreLevels one_price ls
    → size_at q (put_level price size ls) ≡ (if price == q then size else size_at q ls)
size_at-put_level price size q ls h =
    ground (arith, size_at-set_level price q size ls, size_at-pop_level one_price price q ls h)

check_crossed-levels :
    (b : OrderBookState) → ((check_crossed b).bids ≡ b.bids) × ((check_crossed b).asks ≡ b.asks)
unfolding check_crossed
check_crossed-levels b = ground arith

take_level-IsUpdate :
    (is_bid : Bool) (price size received_ms : ℕ) (exchange_ms : Option ℕ) (check : Bool)
    (b : OrderBookState)
    → IsSound b
    → IsUpdate is_bid price size b (take_level is_bid price size received_ms exchange_ms check b)
unfolding take_level
take_level-IsUpdate is_bid price size received_ms exchange_ms check b h q =
    let b' = changed is_bid price size received_ms exchange_ms b in
    ground (
      arith,
      check_crossed-levels b',
      size_at-put_level price size q b.bids h.0,
      size_at-put_level price size q b.asks h.1,
    )

module _ (side : String) (price size : ℤ) (received_ms : ℕ) (exchange_ms : Option ℕ) (check : Bool)
    (b : OrderBookState) where
  apply_level_taken :
      accepts side price size exchange_ms b ≡ true
      → apply_level side price size received_ms exchange_ms check b
        ≡ take_level
            (str_eq side "BUY")
            (pos_part price)
            (pos_part size)
            received_ms
            exchange_ms
            check
            b
  unfolding apply_level
  apply_level_taken e = ground arith

  apply_level_refused :
      accepts side price size exchange_ms b ≡ false
      → let b' = apply_level side price size received_ms exchange_ms check b in
        (b'.bids ≡ b.bids) × (b'.asks ≡ b.asks) × (b'.valid ≡ false)
  unfolding apply_level
  apply_level_refused e = ground arith

-- On a sound book `apply_level` either takes the level, and then the size at its price on its side
-- is the new one (0 removes it) and every other size stays; or it takes nothing, no level changes,
-- and the book is not valid.
pub apply_level-IsUpdate :
    (side : String) (price size : ℤ) (received_ms : ℕ) (exchange_ms : Option ℕ) (check : Bool)
    (b : OrderBookState)
    → IsSound b
    → let b' = apply_level side price size received_ms exchange_ms check b in
      ((accepts side price size exchange_ms b ≡ true)
        × IsUpdate (str_eq side "BUY") (pos_part price) (pos_part size) b b')
      ⊎ ((accepts side price size exchange_ms b ≡ false)
          × (b'.bids ≡ b.bids)
          × (b'.asks ≡ b.asks)
          × (b'.valid ≡ false))
apply_level-IsUpdate side price size received_ms exchange_ms check b h =
    elim (Bool-cases (accepts side price size exchange_ms b)) [
      | inl e ↦ inl (
        e,
        rw (apply_level_taken side price size received_ms exchange_ms check b e) (
            take_level-IsUpdate (str_eq side "BUY") (pos_part price) (pos_part size) received_ms
              exchange_ms check b h),
      )
      | inr e ↦
          let (bids, asks, stopped) =
            apply_level_refused side price size received_ms exchange_ms check b e in
          inr (e, bids, asks, stopped)
    ]
