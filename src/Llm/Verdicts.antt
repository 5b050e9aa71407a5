-- ===== src/Llm/Verdicts.antt =====
-- What a verdict of src/polymarket_bot/llm/reviewer.py rests on.
use claude_route.Base.{
  ℕ, ◌-◌, ◌≤◌, ◌≡◌, refl, ap, sym, ◌∙◌, Bool, true, false, ◌&&◌, ◌⊎◌, inl, inr, Option, none, some,
  any, leb, str_eq, if◌then◌else◌, if_keeps, if_cases, arith,
}
use claude_route.Base.Dict.{lookup}
use claude_route.Risk.Views.{TradeCandidate}
use claude_route.Llm.Reviewer.{
  Mode, ReviewConfig, LlmReview, Kind, approved, rejected, not_reviewed, Entry, Verdict, Reviewer,
  market_key, tighten_candidate, unreviewed, is_off, moved, refused, is_rejected, approval,
  entry_verdict, cached, uncached, or_else, verdict_for,
}

-- An approval that holds at this time and this price.
abbrev pub Approved : ReviewConfig → TradeCandidate → ℕ → Entry → LlmReview → Type 0
Approved cfg c now e r =
    (e.kind ≡ approved)
    × (e.review ≡ some r)
    × (now - e.ts_ms ≤ cfg.approval_ttl_ms)
    × (moved c.executable_price e.reviewed_price ≤ cfg.max_price_move_since_review)

-- The deterministic decision may stand alone.
abbrev pub MayTradeAlone : ReviewConfig → Type 0
MayTradeAlone cfg = (cfg.mode ≡ Mode.advisory) × (cfg.allow_trading_without_llm ≡ true)

-- Why a verdict allows.
abbrev pub Allows : ReviewConfig → TradeCandidate → ℕ → Reviewer → Verdict → Type 0
Allows cfg c now r v =
    ((cfg.mode ≡ Mode.off) × (v.candidate ≡ c))
    ⊎ ((e : Entry) × (l : LlmReview) × (lookup (market_key c) r.entries ≡ some e)
        × Approved cfg c now e l
        × (v.candidate ≡ tighten_candidate cfg.probability_floor c l))
    ⊎ (MayTradeAlone cfg × (v.candidate ≡ c))

unreviewed_allowed :
    (cfg : ReviewConfig) (c : TradeCandidate)
    → (unreviewed cfg c).allowed ≡ true
    → MayTradeAlone cfg
unreviewed_allowed cfg c h = ground arith

is_off_eq : (m : Mode) → is_off m ≡ true → m ≡ Mode.off
is_off_eq Mode.off h = refl
is_off_eq Mode.advisory h = ground arith
is_off_eq Mode.required h = ground arith

uncached_allowed :
    (cfg : ReviewConfig) (available : Bool) (c : TradeCandidate)
    → (uncached cfg available c).allowed ≡ true
    → MayTradeAlone cfg × ((uncached cfg available c).candidate ≡ c)
uncached_allowed cfg available c h = ground (arith, unreviewed_allowed cfg c)

verdict_inj : {v w : Verdict} → ◌≡◌ {A = Option Verdict} (some v) (some w) → w ≡ v
verdict_inj h = cc

not_both : {b : Bool} → false ≡ b → b ≡ true → ⊥
not_both h k = ground arith

if_some : (b : Bool) (x v : Verdict) → (if b then some x else none) ≡ some v → (b ≡ true) × (x ≡ v)
if_some true x v h = (refl, cc)
if_some false x v h = ground arith

approved_entry :
    (cfg : ReviewConfig) (c : TradeCandidate) (o : Option LlmReview) (b : Bool) (v : Verdict)
    → (if b then approval cfg c o else none) ≡ some v
    → (b ≡ true)
      × ((l : LlmReview) × (o ≡ some l)
          × (v.candidate ≡ tighten_candidate cfg.probability_floor c l))
approved_entry cfg c none true v h = ground arith
approved_entry cfg c none false v h = ground arith
approved_entry cfg c (some l) true v h =
    (refl, (l, refl, ap (λ (w : Verdict). w.candidate) (verdict_inj h)))
approved_entry cfg c (some l) false v h = ground arith

entry_allowed :
    (cfg : ReviewConfig) (now : ℕ) (c : TradeCandidate) (k : Kind) (e : Entry) (v : Verdict)
    → e.kind ≡ k
    → entry_verdict cfg now c k e ≡ some v
    → v.allowed ≡ true
    → ((l : LlmReview) × Approved cfg c now e l
        × (v.candidate ≡ tighten_candidate cfg.probability_floor c l))
      ⊎ (MayTradeAlone cfg × (v.candidate ≡ c))
entry_allowed cfg now c rejected e v k h a =
    let (b, same) = if_some (leb (now - e.ts_ms) cfg.cache_ttl_ms) (refused is_rejected c) v h in
    elim (not_both (ap (λ (w : Verdict). w.allowed) same) a) [ ]
entry_allowed cfg now c not_reviewed e v k h a =
    let (b, same) = if_some (leb (now - e.ts_ms) cfg.cache_ttl_ms) (unreviewed cfg c) v h in
    inr (
      unreviewed_allowed cfg c (ap (λ (w : Verdict). w.allowed) same ∙ a),
      ap (λ (w : Verdict). w.candidate) (sym same),
    )
entry_allowed cfg now c approved e v k h a =
    let (b, (l, o, same)) =
      approved_entry cfg c e.review
        (leb (now - e.ts_ms) cfg.approval_ttl_ms
          && leb (moved c.executable_price e.reviewed_price) cfg.max_price_move_since_review)
        v h in
    inl (l, (k, o, ground arith, ground arith), same)

cached_allowed :
    (cfg : ReviewConfig) (available : Bool) (c : TradeCandidate) (now : ℕ) (r : Reviewer)
    → let v =
        or_else (cached cfg now c (lookup (market_key c) r.entries)) (uncached cfg available c) in
      v.allowed ≡ true → Allows cfg c now r v
cached_allowed cfg available c now r = found (lookup (market_key c) r.entries) refl
  where
    found :
        (o : Option Entry)
        → lookup (market_key c) r.entries ≡ o
        → (or_else (cached cfg now c o) (uncached cfg available c)).allowed ≡ true
        → Allows cfg c now r (or_else (cached cfg now c o) (uncached cfg available c))
    found none e a = inr (inr (uncached_allowed cfg available c a))
    found (some x) e a = decided (cached cfg now c (some x)) refl a
      where
        decided :
            (o : Option Verdict)
            → cached cfg now c (some x) ≡ o
            → (or_else o (uncached cfg available c)).allowed ≡ true
            → Allows cfg c now r (or_else o (uncached cfg available c))
        decided none k a' = inr (inr (uncached_allowed cfg available c a'))
        decided (some v) k a' = elim (entry_allowed cfg now c x.kind x v refl k a') [
          | inl (l, ok, same) ↦ inr (inl (x, l, e, ok, same))
          | inr alone ↦ inr (inr alone)
        ]

-- A verdict allows a trade for one of three reasons only: the review is switched off; an approval
-- for this token is on record, no older than its time to live and at a price within the allowed
-- move, and the candidate is the one tightened by that review; or the mode is advisory and trading
-- without a review is allowed, with the candidate as it came.
pub verdict_for-Allows :
    (cfg : ReviewConfig) (available : Bool) (c : TradeCandidate) (now : ℕ) (r : Reviewer)
    → (verdict_for cfg available c now r).allowed ≡ true
    → Allows cfg c now r (verdict_for cfg available c now r)
unfolding verdict_for
verdict_for-Allows cfg available c now r =
    if_cases (λ (v : Verdict). v.allowed ≡ true → Allows cfg c now r v) (is_off cfg.mode)
      (λ off a. inl (is_off_eq cfg.mode off, refl))
      (λ on.
        if_keeps (λ (v : Verdict). v.allowed ≡ true → Allows cfg c now r v)
          (any (str_eq (market_key c)) r.in_flight) (λ a. elim (not_both refl a) [ ])
          (cached_allowed cfg available c now r))
