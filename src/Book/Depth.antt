-- ===== src/Book/Depth.antt =====
-- `depth_usd` of src/polymarket_bot/domain/market.py, which stops at the first level that is too
-- far from the best one, against the sum over all levels that are near enough.
use claude_route.Base.{
  ℕ, ◌+◌, ◌*◌, ◌≤◌, ◌<◌, ◌≡◌, refl, Bool, true, false, [], ◌∷◌, filter, leb, if◌then◌else◌, inl,
  inr, ◌⊎◌, arith, All,
}
use claude_route.Book.Levels.{LevelMap, SortedBy, is_above, is_below}
use claude_route.Book.Snapshot.{OrderBookSnapshot, distance, depth_from, depth_of, depth_usd}

abbrev pub notional : LevelMap → ℕ
notional [] = 0
notional ((p, s) ∷ ls) = p * s + notional ls

abbrev pub is_near : ℕ → ℕ → ℕ × ℕ → Bool
is_near best within l = leb (distance l.0 best) within

abbrev pub near : ℕ → LevelMap → LevelMap
near within [] = []
near within ((p, s) ∷ ls) = filter (is_near p within) ((p, s) ∷ ls)

abbrev AllFar : ℕ → ℕ → LevelMap → Type 0
AllFar best d ls = All (λ l. d ≤ distance l.0 best) ls

-- Each level is as far from `best` as the levels before it.
abbrev Outward : ℕ → LevelMap → Type 0
Outward best [] = Unit
Outward best ((p, s) ∷ ls) = AllFar best (distance p best) ls × Outward best ls

filter_far :
    (best within d : ℕ) (ls : LevelMap)
    → within < d
    → AllFar best d ls
    → filter (is_near best within) ls ≡ []
filter_far best within d [] h a = refl
filter_far best within d ((p, s) ∷ ls) h a = ground (arith, filter_far best within d ls)

depth_from-filter :
    (best within : ℕ) (ls : LevelMap)
    → Outward best ls
    → depth_from best within ls ≡ notional (filter (is_near best within) ls)
depth_from-filter best within [] h = refl
depth_from-filter best within ((p, s) ∷ ls) (a, h) =
    ground (arith, depth_from-filter best within ls h, filter_far best within (distance p best) ls)

above_far :
    (best p : ℕ) (ls : LevelMap)
    → p ≤ best
    → All (λ l. is_above p l.0 ≡ true) ls
    → AllFar best (distance p best) ls × All (λ l. l.0 ≤ best) ls
above_far best p [] h a = (tt, tt)
above_far best p (l ∷ ls) h (a, b) =
    let (far, le) = above_far best p ls h b in ((ground arith, far), (ground arith, le))

below_far :
    (best p : ℕ) (ls : LevelMap)
    → best ≤ p
    → All (λ l. is_below p l.0 ≡ true) ls
    → AllFar best (distance p best) ls × All (λ l. best ≤ l.0) ls
below_far best p [] h a = (tt, tt)
below_far best p (l ∷ ls) h (a, b) =
    let (far, le) = below_far best p ls h b in ((ground arith, far), (ground arith, le))

above-Outward :
    (best : ℕ) (ls : LevelMap) → All (λ l. l.0 ≤ best) ls → SortedBy is_above ls → Outward best ls
above-Outward best [] a h = tt
above-Outward best ((p, s) ∷ ls) (a, b) (g, h) =
    ((above_far best p ls a g).0, above-Outward best ls b h)

below-Outward :
    (best : ℕ) (ls : LevelMap) → All (λ l. best ≤ l.0) ls → SortedBy is_below ls → Outward best ls
below-Outward best [] a h = tt
below-Outward best ((p, s) ∷ ls) (a, b) (g, h) =
    ((below_far best p ls a g).0, below-Outward best ls b h)

depth_of-near :
    (within : ℕ) (ls : LevelMap)
    → SortedBy is_above ls ⊎ SortedBy is_below ls
    → depth_of within ls ≡ notional (near within ls)
depth_of-near within [] h = refl
depth_of-near within ((p, s) ∷ ls) (inl (g, h)) =
    depth_from-filter p within ((p, s) ∷ ls)
      (above-Outward p ((p, s) ∷ ls) (omega arith, (above_far p p ls (omega arith) g).1) (g, h))
depth_of-near within ((p, s) ∷ ls) (inr (g, h)) =
    depth_from-filter p within ((p, s) ∷ ls)
      (below-Outward p ((p, s) ∷ ls) (omega arith, (below_far p p ls (omega arith) g).1) (g, h))

-- On a snapshot whose bids fall and whose asks rise, the early exit of `depth_usd` loses nothing:
-- the depth is the sum of price * size over all levels of the side whose price is at most `within`
-- away from the best one.
pub depth_usd-near :
    (is_ask : Bool) (within : ℕ) (b : OrderBookSnapshot)
    → SortedBy is_above b.bids
    → SortedBy is_below b.asks
    → depth_usd is_ask within b ≡ notional (near within (if is_ask then b.asks else b.bids))
unfolding depth_usd
depth_usd-near true within b h k = depth_of-near within b.asks (inr k)
depth_usd-near false within b h k = depth_of-near within b.bids (inl h)
