-- ===== src/Book/Levels.antt =====
-- One side of an order book of src/polymarket_bot/market/orderbook.py: a dict from prices to sizes,
-- in insertion order, and what Python's `max`, `min` and `sorted` make of its keys.
-- A price counts 0.0001, a size 0.000001 shares.
use claude_route.Base.{
  ℕ, ◌<◌, ◌≡◌, refl, Bool, true, Option, none, some, List, [], ◌∷◌, ltb, ◌==◌, if◌then◌else◌, All,
  arith,
}

abbrev pub LevelMap : Type 0
LevelMap = List (ℕ × ℕ)

-- `book.get(price, 0)`: a size of zero is never stored
abbrev pub size_at : ℕ → LevelMap → ℕ
size_at p [] = 0
size_at p ((q, s) ∷ ls) = if q == p then s else size_at p ls

-- `book[price] = size`
unfoldable pub set_level : ℕ → ℕ → LevelMap → LevelMap
set_level p s [] = (p, s) ∷ []
set_level p s ((q, t) ∷ ls) =
    let rest = set_level p s ls in if q == p then (q, s) ∷ ls else (q, t) ∷ rest

-- `book.pop(price, None)`: a dict holds a key once
unfoldable pub pop_level : ℕ → LevelMap → LevelMap
pop_level p [] = []
pop_level p ((q, t) ∷ ls) = let rest = pop_level p ls in if q == p then ls else (q, t) ∷ rest

abbrev pub larger : ℕ → Option ℕ → ℕ
larger p none = p
larger p (some q) = if ltb p q then q else p

abbrev pub smaller : ℕ → Option ℕ → ℕ
smaller p none = p
smaller p (some q) = if ltb q p then q else p

-- `max(book) if book else None`
abbrev pub max_price : LevelMap → Option ℕ
max_price [] = none
max_price ((p, s) ∷ ls) = some (larger p (max_price ls))

-- `min(book) if book else None`
abbrev pub min_price : LevelMap → Option ℕ
min_price [] = none
min_price ((p, s) ∷ ls) = some (smaller p (min_price ls))

-- `sorted` of the items, the keys being different; `before` is the order of the prices.
abbrev pub insert_by : (ℕ → ℕ → Bool) → ℕ → ℕ → LevelMap → LevelMap
insert_by before p s [] = (p, s) ∷ []
insert_by before p s ((q, t) ∷ ls) =
    let rest = insert_by before p s ls in if before p q then (p, s) ∷ (q, t) ∷ ls else (q, t) ∷ rest

abbrev pub sort_by : (ℕ → ℕ → Bool) → LevelMap → LevelMap
sort_by before [] = []
sort_by before ((p, s) ∷ ls) = insert_by before p s (sort_by before ls)

abbrev pub is_above : ℕ → ℕ → Bool
is_above p q = ltb q p

abbrev pub is_below : ℕ → ℕ → Bool
is_below p q = ltb p q

-- `sorted(book.items(), reverse=True)`
unfoldable pub sort_descending : LevelMap → LevelMap
sort_descending = sort_by is_above

-- `sorted(book.items())`
unfoldable pub sort_ascending : LevelMap → LevelMap
sort_ascending = sort_by is_below

-- Every level has a price inside the bounds and shares, and no price stands twice.
abbrev pub AreLevels : ℕ → LevelMap → Type 0
AreLevels one [] = Unit
AreLevels one ((p, s) ∷ ls) = (0 < p) × (p < one) × (0 < s) × (size_at p ls ≡ 0) × AreLevels one ls

-- Each price comes before all that follow it.
abbrev pub SortedBy : (ℕ → ℕ → Bool) → LevelMap → Type 0
SortedBy before [] = Unit
SortedBy before ((p, s) ∷ ls) = All (λ l. before p l.0 ≡ true) ls × SortedBy before ls

pub size_at-set_level :
    (p q s : ℕ) (ls : LevelMap)
    → size_at q (set_level p s ls) ≡ (if p == q then s else size_at q ls)
unfolding set_level
size_at-set_level p q s [] = refl
size_at-set_level p q s ((r, t) ∷ ls) = ground (arith, size_at-set_level p q s ls)

pub size_at-pop_level :
    (one p q : ℕ) (ls : LevelMap)
    → AreLevels one ls
    → size_at q (pop_level p ls) ≡ (if p == q then 0 else size_at q ls)
unfolding pop_level
size_at-pop_level one p q [] h = ground arith
size_at-pop_level one p q ((r, t) ∷ ls) h = ground (arith, size_at-pop_level one p q ls)

pub set_level-AreLevels :
    (one p s : ℕ) (ls : LevelMap)
    → 0 < p
    → p < one
    → 0 < s
    → AreLevels one ls
    → AreLevels one (set_level p s ls)
unfolding set_level
set_level-AreLevels one p s [] a b c h = (a, b, c, refl, tt)
set_level-AreLevels one p s ((r, t) ∷ ls) a b c h =
    ground (arith, set_level-AreLevels one p s ls, size_at-set_level p r s ls)

pub pop_level-AreLevels :
    (one p : ℕ) (ls : LevelMap) → AreLevels one ls → AreLevels one (pop_level p ls)
unfolding pop_level
pop_level-AreLevels one p [] h = tt
pop_level-AreLevels one p ((r, t) ∷ ls) h =
    ground (arith, pop_level-AreLevels one p ls, size_at-pop_level one p r ls)
