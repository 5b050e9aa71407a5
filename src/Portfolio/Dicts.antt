-- ===== src/Portfolio/Dicts.antt =====
-- The total cost of a dict of positions under each update, and the dict's invariant.
use claude_route.Base.{◌+◌, ◌≡◌, String, none, some, [], ◌∷◌, eq_iff, arith}
use claude_route.Base.Dict.{Dict, lookup, insert, erase}
use claude_route.Base.Dict.Distinct.{Distinct, erase_absent}
use claude_route.Portfolio.{Position, exposure_usd}

-- A position stands under its own token.
abbrev pub Keyed : Dict Position → Type 0
Keyed [] = Unit
Keyed ((k, p) ∷ d) = (p.token_id ≡ k) × Keyed d

pub insert-Keyed :
    (k : String) (p : Position) (d : Dict Position)
    → p.token_id ≡ k
    → Keyed d
    → Keyed (insert k p d)
unfolding insert
insert-Keyed k p [] e h = (e, tt)
insert-Keyed k p ((j, q) ∷ d) e h = ground (arith, eq_iff j k, insert-Keyed k p d e)

pub erase-Keyed : (k : String) (d : Dict Position) → Keyed d → Keyed (erase k d)
unfolding erase
erase-Keyed k [] h = tt
erase-Keyed k ((j, q) ∷ d) h = ground (arith, erase-Keyed k d)

pub lookup-Keyed :
    (k : String) (p : Position) (d : Dict Position) → Keyed d → lookup k d ≡ some p → p.token_id ≡ k
unfolding lookup
lookup-Keyed k p [] h e = cc
lookup-Keyed k p ((j, q) ∷ d) h e = ground (arith, eq_iff j k, lookup-Keyed k p d)

pub exposure_usd-insert_new :
    (k : String) (p : Position) (d : Dict Position)
    → lookup k d ≡ none
    → exposure_usd (insert k p d) ≡ exposure_usd d + p.cost_basis_usd
unfolding lookup insert exposure_usd
exposure_usd-insert_new k p [] e = omega arith
exposure_usd-insert_new k p ((j, q) ∷ d) e = ground (arith, exposure_usd-insert_new k p d)

pub exposure_usd-insert :
    (k : String) (p old : Position) (d : Dict Position)
    → lookup k d ≡ some old
    → exposure_usd (insert k p d) + old.cost_basis_usd ≡ exposure_usd d + p.cost_basis_usd
unfolding lookup insert exposure_usd
exposure_usd-insert k p old [] e = cc
exposure_usd-insert k p old ((j, q) ∷ d) e = ground (arith, exposure_usd-insert k p old d)

pub exposure_usd-erase :
    (k : String) (old : Position) (d : Dict Position)
    → Distinct d
    → lookup k d ≡ some old
    → exposure_usd (erase k d) + old.cost_basis_usd ≡ exposure_usd d
unfolding lookup erase exposure_usd
exposure_usd-erase k old [] h e = cc
exposure_usd-erase k old ((j, q) ∷ d) h e =
    ground (arith, eq_iff j k, erase_absent k d, exposure_usd-erase k old d)
