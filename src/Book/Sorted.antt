-- ===== src/Book/Sorted.antt =====
-- The snapshot of a book of src/polymarket_bot/market/orderbook.py, and the best prices that
-- src/polymarket_bot/domain/market.py reads off it.
use claude_route.Base.{
  ℕ, ◌<◌, ◌≡◌, refl, Bool, true, false, inl, inr, ◌≢◌, sym, Bool-cases, [], ◌∷◌, if◌then◌else◌,
  arith, ◌==◌, All,
}
use claude_route.Domain.Orders.{one_price}
use claude_route.Book.Levels.{
  LevelMap, AreLevels, SortedBy, size_at, insert_by, sort_by, is_above, is_below,
}

size_at-insert_by :
    (before : ℕ → ℕ → Bool) (p s k : ℕ) (ls : LevelMap)
    → size_at p ls ≡ 0
    → AreLevels one_price ls
    → size_at k (insert_by before p s ls) ≡ (if p == k then s else size_at k ls)
size_at-insert_by before p s k [] h a = refl
size_at-insert_by before p s k ((q, t) ∷ ls) h a = ground (arith, size_at-insert_by before p s k ls)

All-insert_by :
    (P : ℕ → Type 0) (before : ℕ → ℕ → Bool) (p s : ℕ) (ls : LevelMap)
    → P p
    → All (λ l. P l.0) ls
    → All (λ l. P l.0) (insert_by before p s ls)
All-insert_by P before p s [] a h = (a, tt)
All-insert_by P before p s ((q, t) ∷ ls) a h = ground (arith, All-insert_by P before p s ls)

insert_by-AreLevels :
    (before : ℕ → ℕ → Bool) (p s : ℕ) (ls : LevelMap)
    → 0 < p
    → p < one_price
    → 0 < s
    → size_at p ls ≡ 0
    → AreLevels one_price ls
    → AreLevels one_price (insert_by before p s ls)
insert_by-AreLevels before p s [] a b c d h = (a, b, c, refl, tt)
insert_by-AreLevels before p s ((q, t) ∷ ls) a b c d h =
    ground (arith, insert_by-AreLevels before p s ls, size_at-insert_by before p s q ls)

-- Sorting keeps the map from prices to sizes.
pub sort_by-size_at :
    (before : ℕ → ℕ → Bool) (ls : LevelMap)
    → AreLevels one_price ls
    → AreLevels one_price (sort_by before ls)
      × ((k : ℕ) → size_at k (sort_by before ls) ≡ size_at k ls)
sort_by-size_at before [] h = (tt, λ k. refl)
sort_by-size_at before ((p, s) ∷ ls) (a, b, c, d, h) =
    let (sound, same) = sort_by-size_at before ls h in
    (
      insert_by-AreLevels before p s (sort_by before ls) a b c (rw (same p) d) sound,
      λ k.
          rw (size_at-insert_by before p s k (sort_by before ls) (rw (same p) d) sound)
            (rw (same k) refl),
    )

All-size_at :
    (p : ℕ) (ls : LevelMap) → AreLevels one_price ls → size_at p ls ≡ 0 → All (λ l. l.0 ≢ p) ls
All-size_at p [] h a = tt
All-size_at p ((q, t) ∷ ls) h a = ground (arith, All-size_at p ls)

-- A strict order in which different prices compare.
abbrev pub IsOrder : (ℕ → ℕ → Bool) → Type 0
IsOrder before =
    ((p q r : ℕ) → before p q ≡ true → before q r ≡ true → before p r ≡ true)
    × ((p q : ℕ) → p ≢ q → before p q ≡ false → before q p ≡ true)

pub is_above-IsOrder : IsOrder is_above
is_above-IsOrder = (λ p q r g h. ground arith, λ p q g h. ground arith)

pub is_below-IsOrder : IsOrder is_below
is_below-IsOrder = (λ p q r g h. ground arith, λ p q g h. ground arith)

module _ (before : ℕ → ℕ → Bool) (order : IsOrder before) where
  first_trans :
      (p q : ℕ) (ls : LevelMap)
      → before p q ≡ true
      → All (λ l. before q l.0 ≡ true) ls
      → All (λ l. before p l.0 ≡ true) ls
  first_trans p q [] h a = tt
  first_trans p q (l ∷ ls) h a = (order.0 p q l.0 h a.0, first_trans p q ls h a.1)

  insert_by-SortedBy :
      (p s : ℕ) (ls : LevelMap)
      → All (λ l. l.0 ≢ p) ls
      → SortedBy before ls
      → SortedBy before (insert_by before p s ls)
  insert_by-SortedBy p s [] a h = (tt, tt)
  insert_by-SortedBy p s ((q, t) ∷ ls) (a, b) (h, k) = elim (Bool-cases (before p q)) [
    | inl e ↦ rw e ((e, first_trans p q ls e h), (h, k))
    | inr e ↦ rw e (
      All-insert_by (λ x. before q x ≡ true) before p s ls (order.1 p q (λ f. a (sym f)) e) h,
      insert_by-SortedBy p s ls b k,
    )
  ]

  pub sort_by-SortedBy :
      (ls : LevelMap) → AreLevels one_price ls → SortedBy before (sort_by before ls)
  sort_by-SortedBy [] h = tt
  sort_by-SortedBy ((p, s) ∷ ls) (a, b, c, d, h) =
      let (sound, same) = sort_by-size_at before ls h in
      insert_by-SortedBy p s (sort_by before ls)
        (All-size_at p (sort_by before ls) sound (rw (same p) d)) (sort_by-SortedBy ls h)
