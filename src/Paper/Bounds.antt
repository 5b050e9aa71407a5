-- ===== src/Paper/Bounds.antt =====
-- What a match of src/polymarket_bot/adapters/paper_exchange.py can fill.
use native.Mathlib.Nat.{div-mul-le_self, mul-le-mul_right}
use claude_route.Base.{
  ℕ, ◌+◌, ◌-◌, ◌*◌, ◌/◌, ◌≤◌, ◌<◌, ◌≡◌, refl, Bool, true, false, ◌||◌, ◌⊎◌, inl, inr, List, [], ◌∷◌,
  ltb, leb, ◌==◌, value_or, if◌then◌else◌, if_cases, arith, All,
}
use claude_route.Domain.Types.{Side}
use claude_route.Domain.Orders.{OrderIntent, share_lot}
use claude_route.Book.Levels.{LevelMap}
use claude_route.Book.Depth.{notional}
use claude_route.Book.Snapshot.{OrderBookSnapshot}
use claude_route.Paper.Fills.{Consumption, available, affordable, buy_loop, sell_loop, total_size}
use claude_route.Paper.{PaperConfig, Found, is_fok, find_side, keep_fok, find_fills}

-- The fills take from the levels in their order, from each at most once and at most what it has.
pub data TakenFrom : LevelMap → LevelMap → Type 0 where
  done : {ls : LevelMap} → TakenFrom [] ls
  skip : {fs ls : LevelMap} (l : ℕ × ℕ) → TakenFrom fs ls → TakenFrom fs (l ∷ ls)
  take :
      {fs ls : LevelMap} (p s t : ℕ)
      → 0 < s
      → s ≤ t
      → TakenFrom fs ls
      → TakenFrom ((p, s) ∷ fs) ((p, t) ∷ ls)

affordable_le :
    (budget price size : ℕ)
    → (affordable budget price size ≤ size) × (affordable budget price size * price ≤ budget)
affordable_le budget price size =
    let lots = budget / (price * share_lot) in
    let within = div-mul-le_self budget (price * share_lot) in
    if_cases (λ x. (x ≤ size) × (x * price ≤ budget)) (leb (lots * share_lot) size)
      (λ e. (ground arith, omega (arith, within)))
      (λ e. (
        omega arith,
        fits size (lots * share_lot) (ground arith) price budget (omega (arith, within)),
      ))
  where
    fits : (a b : ℕ) → a ≤ b → (p n : ℕ) → b * p ≤ n → a * p ≤ n
    fits a b h p n k = omega (arith, mul-le-mul_right p h, k)

-- A purchase spends its budget on levels within the limit.
abbrev BoughtWithin : ℕ → ℕ → LevelMap → LevelMap × ℕ → Type 0
BoughtWithin limit budget ls r =
    (notional r.0 + r.1 ≡ budget) × All (λ f. f.0 ≤ limit) r.0 × TakenFrom r.0 ls

buy_loop-BoughtWithin :
    (limit budget : ℕ) (ls : LevelMap) → BoughtWithin limit budget ls (buy_loop limit budget ls)
buy_loop-BoughtWithin limit budget [] = (omega arith, tt, done)
buy_loop-BoughtWithin limit budget ((price, size) ∷ ls) =
    let n = affordable budget price size in
    let (le_size, le_budget) = affordable_le budget price size in
    let (spent, within, from) = buy_loop-BoughtWithin limit budget ls in
    let (spent', within', from') = buy_loop-BoughtWithin limit (budget - n * price) ls in
    let P = BoughtWithin limit budget ((price, size) ∷ ls) in
    if_cases P (ltb limit price || budget == 0) (λ _. (omega arith, tt, done))
      (λ go.
        if_cases P (size == 0 || n == 0) (λ _. (spent, within, skip (price, size) from))
          (λ some. (
            omega (arith, le_budget, spent'),
            (ground arith, within'),
            take price n size (ground arith) le_size from',
          )))

abbrev SoldWithin : ℕ → ℕ → LevelMap → LevelMap × ℕ → Type 0
SoldWithin limit shares ls r =
    (total_size r.0 + r.1 ≡ shares) × All (λ f. limit ≤ f.0) r.0 × TakenFrom r.0 ls

sell_loop-SoldWithin :
    (limit left : ℕ) (ls : LevelMap) → SoldWithin limit left ls (sell_loop limit left ls)
sell_loop-SoldWithin limit left [] = (omega arith, tt, done)
sell_loop-SoldWithin limit left ((price, size) ∷ ls) =
    let n = if leb size left then size else left in
    let (sold, within, from) = sell_loop-SoldWithin limit left ls in
    let (sold', within', from') = sell_loop-SoldWithin limit (left - n) ls in
    let P = SoldWithin limit left ((price, size) ∷ ls) in
    if_cases P (ltb price limit || left == 0) (λ _. (omega arith, tt, done))
      (λ go.
        if_cases P (size == 0) (λ _. (sold, within, skip (price, size) from))
          (λ some. (
            ground (arith, sold'),
            (ground arith, within'),
            take price n size (ground arith) (ground arith) from',
          )))

-- What the fills of an order may be, given what the two sides offer.
abbrev pub WithinOrder : Side → OrderIntent → LevelMap → LevelMap → LevelMap → Type 0
WithinOrder Side.buy i asks bids fs =
    (notional fs ≤ value_or i.buy_amount_usd 0)
    × All (λ f. f.0 ≤ i.limit_price) fs
    × TakenFrom fs asks
WithinOrder Side.sell i asks bids fs =
    (total_size fs ≤ value_or i.sell_shares 0)
    × All (λ f. i.limit_price ≤ f.0) fs
    × TakenFrom fs bids

find_side-WithinOrder :
    (side : Side) (i : OrderIntent) (asks bids : LevelMap)
    → WithinOrder side i asks bids (find_side side i asks bids).0
find_side-WithinOrder Side.buy i asks bids =
    let (spent, within, from) =
      buy_loop-BoughtWithin i.limit_price (value_or i.buy_amount_usd 0) asks in
    (omega (arith, spent), within, from)
find_side-WithinOrder Side.sell i asks bids =
    let (sold, within, from) = sell_loop-SoldWithin i.limit_price (value_or i.sell_shares 0) bids in
    (omega (arith, sold), within, from)

nothing-WithinOrder :
    (side : Side) (i : OrderIntent) (asks bids : LevelMap) → WithinOrder side i asks bids []
nothing-WithinOrder Side.buy i asks bids = (omega arith, tt, done)
nothing-WithinOrder Side.sell i asks bids = (omega arith, tt, done)

keep_fok_cases :
    (P : LevelMap → Type 0) (fok : Bool) (r : Found)
    → P []
    → P r.0
    → P (keep_fok fok r).0
      × ((fok ≡ false) ⊎ ((keep_fok fok r).0 ≡ []) ⊎ ((keep_fok fok r).1 ≡ true))
keep_fok_cases P false r n h = (h, inl refl)
keep_fok_cases P true (fs, true) n h = (h, inr (inr refl))
keep_fok_cases P true (fs, false) n h = (n, inr (inl refl))

-- Whatever the book shows, the fills of an order stay within it: a purchase costs at most its
-- amount and pays no price above its limit, a sale sells at most its shares and takes no price
-- below its limit; from each level, best first, at most once and at most what is offered there
-- beyond the own recent fills. And an order to fill or kill gets nothing or is complete.
pub find_fills-WithinOrder :
    (cfg : PaperConfig) (i : OrderIntent) (book : OrderBookSnapshot) (now : ℕ)
    (consumed : List Consumption)
    → let r = find_fills cfg i book now consumed in
      WithinOrder i.side i
        (available cfg.liquidity_replenish_ms true now book.token_id consumed book.asks)
        (available cfg.liquidity_replenish_ms false now book.token_id consumed book.bids)
        r.0
      × ((is_fok i.order_type ≡ false) ⊎ (r.0 ≡ []) ⊎ (r.1 ≡ true))
unfolding find_fills
find_fills-WithinOrder cfg i book now consumed =
    let asks = available cfg.liquidity_replenish_ms true now book.token_id consumed book.asks in
    let bids = available cfg.liquidity_replenish_ms false now book.token_id consumed book.bids in
    keep_fok_cases (WithinOrder i.side i asks bids) (is_fok i.order_type)
      (find_side i.side i asks bids) (nothing-WithinOrder i.side i asks bids)
      (find_side-WithinOrder i.side i asks bids)
