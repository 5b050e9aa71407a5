-- ===== src/Risk/Rates/Windows.antt =====
-- Proofs on `RateTracker.view` of risk/rates.py.
use claude_route.Base.{ℕ, ◌≤◌, ◌≡◌, refl, true, List, [], ◌∷◌, arith, length, count, All}
use claude_route.Risk.Rates.{RateTracker, minute, hour, day, drop_older, within, view}

-- The times of a queue do not fall.
abbrev pub Sorted : List ℕ → Type 0
Sorted [] = Unit
Sorted (t ∷ ts) = All (λ u. t ≤ u) ts × Sorted ts

later_kept :
    (now window t : ℕ) (ts : List ℕ)
    → All (λ u. t ≤ u) ts
    → within now window t ≡ true
    → length ts ≡ count (within now window) ts
later_kept now window t [] a h = refl
later_kept now window t (u ∷ us) a h = ground (arith, later_kept now window t us a.1 h)

-- Dropping from the front of a sorted queue leaves exactly what is in the window.
length-drop_older :
    (now window : ℕ) (ts : List ℕ)
    → Sorted ts
    → length (drop_older now window ts) ≡ count (within now window) ts
unfolding drop_older
length-drop_older now window [] s = refl
length-drop_older now window (t ∷ ts) s =
    ground (arith, later_kept now window t ts s.0, length-drop_older now window ts s.1)

-- A smaller window counts the same after a larger one has dropped what is older.
count-drop_older :
    (now small large : ℕ) (ts : List ℕ)
    → small ≤ large
    → count (within now small) (drop_older now large ts) ≡ count (within now small) ts
unfolding drop_older
count-drop_older now small large [] h = refl
count-drop_older now small large (t ∷ ts) h = ground (arith, count-drop_older now small large ts h)

-- Where the times in the two queues do not fall, the view counts the entries of the last minute, hour
-- and day, and the exits of the last minute.
pub view_counts :
    (now : ℕ) (t : RateTracker)
    → Sorted t.entries
    → Sorted t.exits
    → let v = (view now t).0 in
      (v.submissions_last_minute ≡ count (within now minute) t.entries)
      × (v.submissions_last_hour ≡ count (within now hour) t.entries)
      × (v.submissions_last_day ≡ count (within now day) t.entries)
      × (v.exits_last_minute ≡ count (within now minute) t.exits)
unfolding view
view_counts now t a b = (
  count-drop_older now minute day t.entries (omega arith),
  count-drop_older now hour day t.entries (omega arith),
  length-drop_older now day t.entries a,
  length-drop_older now minute t.exits b,
)
