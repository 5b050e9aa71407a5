-- ===== src/Portfolio/Live.antt =====
-- Positions that a dict still holds while a loop over a copy of its values goes on.
use claude_route.Base.{◌≡◌, String, false, none, some, List, [], ◌∷◌, All, str_eq, eq_iff, arith}
use claude_route.Base.Dict.{Dict, lookup, insert, erase, values, lookup-insert, lookup-erase}
use claude_route.Base.Dict.Distinct.{Distinct}
use claude_route.Portfolio.{Position}
use claude_route.Portfolio.Dicts.{Keyed}

-- The token is that of none of the positions.
abbrev pub Differs : String → List Position → Type 0
Differs t = All (λ q. str_eq t q.token_id ≡ false)

abbrev pub Live : List Position → Dict Position → Type 0
Live [] d = Unit
Live (p ∷ ps) d = (lookup p.token_id d ≡ some p) × Differs p.token_id ps × Live ps d

-- Replacing and then deleting one token leaves the others.
pub Live-erase :
    (t : String) (e : Position) (ps : List Position) (d : Dict Position)
    → Differs t ps
    → Live ps d
    → Live ps (erase t (insert t e d))
Live-erase t e [] d h l = tt
Live-erase t e (p ∷ ps) d h l = ground (
  arith,
  Live-erase t e ps d h.1 l.2,
  lookup-erase t p.token_id (insert t e d),
  lookup-insert t p.token_id e d,
)

Differs-none : (k : String) (d : Dict Position) → Keyed d → lookup k d ≡ none → Differs k (values d)
unfolding lookup
Differs-none k [] h e = tt
Differs-none k ((j, p) ∷ d) h e =
    ground (arith, eq_iff j k, eq_iff k p.token_id, Differs-none k d h.1)

Live-cons :
    (k : String) (p : Position) (ps : List Position) (d : Dict Position)
    → Differs k ps
    → Live ps d
    → Live ps ((k, p) ∷ d)
unfolding lookup
Live-cons k p [] d h l = tt
Live-cons k p (q ∷ ps) d h l = ground (arith, Live-cons k p ps d h.1 l.2)

pub Live-values : (d : Dict Position) → Distinct d → Keyed d → Live (values d) d
unfolding lookup
Live-values [] h k = tt
Live-values ((j, p) ∷ d) h k = ground (
  arith,
  eq_iff j p.token_id,
  Differs-none j d k.1 h.0,
  Live-cons j p (values d) d (Differs-none j d k.1 h.0),
  Live-values d h.1 k.1,
)
