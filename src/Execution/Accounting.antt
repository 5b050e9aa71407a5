-- ===== src/Execution/Accounting.antt =====
-- The totals of an order beside the fills that the engine reports (execution/engine.py), through
-- `apply_events`.
use claude_route.Base.{
  ℕ, ◌+◌, ◌*◌, ◌≡◌, inl, inr, refl, subst, String, false, not, ◌||◌, Option, none, some, List, [],
  ◌∷◌, arith, str_eq, eq_iff, Bool-cases, if◌then◌else◌,
}
use claude_route.Base.Dict.{lookup, insert, contains, lookup-insert_cases}
use claude_route.Domain.Types.{same_side, is_terminal}
use claude_route.Domain.Orders.{Fill, OrderRecord, OrderUpdate, ExecutionEvent}
use claude_route.Execution.{Engine, save, insert_fill, find_order}
use claude_route.Execution.Events.{
  filled, updated, check_fill, noted, book_fill, fill_order, apply_fill, update_status,
  apply_update, apply_event, apply_events,
}
use claude_route.Execution.Persisted.{
  IsPersisted, find_order-tracked, check_fill_orders, noted_same, apply_event-IsPersisted,
}

-- The sum of `amount` over the reported fills of an order.
abbrev pub booked : (Fill → ℕ) → String → List (Fill × OrderRecord) → ℕ
booked amount id [] = 0
booked amount id ((f, r) ∷ l) =
    if str_eq r.intent.intent_id id then amount f + booked amount id l else booked amount id l

abbrev pub shares_of : Fill → ℕ
shares_of f = f.shares

abbrev pub notional_of : Fill → ℕ
notional_of f = f.price * f.shares

abbrev pub fee_of : Fill → ℕ
fee_of f = f.fee_usd

-- The totals of an order agree with its reported fills.
abbrev pub Agrees : OrderRecord → List (Fill × OrderRecord) → Type 0
Agrees r l =
    (r.filled_shares ≡ booked shares_of r.intent.intent_id l)
    × (r.filled_notional_usd ≡ booked notional_of r.intent.intent_id l)
    × (r.fees_usd ≡ booked fee_of r.intent.intent_id l)

pub record IsAccounted (e : Engine) : Type 0 where
  pub persisted : IsPersisted e
  pub agrees : (id : String) (r : OrderRecord) → lookup id e.orders ≡ some r → Agrees r e.reported

-- A fill that is booked to one order is not counted for another.
Agrees-other :
    (f : Fill) (q r : OrderRecord) (l : List (Fill × OrderRecord))
    → str_eq q.intent.intent_id r.intent.intent_id ≡ false
    → Agrees r l
    → Agrees r ((f, q) ∷ l)
Agrees-other f q r l h a = ground arith

Agrees-filled :
    (f : Fill) (r : OrderRecord) (l : List (Fill × OrderRecord))
    → Agrees r l
    → Agrees (filled f r) ((f, filled f r) ∷ l)
Agrees-filled f r l a = ground (arith, eq_iff r.intent.intent_id r.intent.intent_id)

book_fill-Agrees :
    (f : Fill) (r : OrderRecord) (e : Engine)
    → IsAccounted e
    → lookup r.intent.intent_id e.orders ≡ some r
    → (id : String) (x : OrderRecord) → lookup id (book_fill f r e).orders ≡ some x
    → Agrees x (book_fill f r e).reported
unfolding book_fill save
book_fill-Agrees f r e h t id x l =
    elim (Bool-cases
      (not (same_side f.side r.intent.side) || not (str_eq f.token_id r.intent.token_id))) [
        | inl bad ↦ rw bad (h.agrees id x (rw bad at l))
        | inr good ↦
            rw (good, (check_fill_orders f r e).2)
              (elim (lookup-insert_cases r.intent.intent_id id (filled f r)
                (check_fill f r e).orders (rw good at l)) [
                  | inl new ↦
                      subst (λ y. Agrees y ((f, filled f r) ∷ e.reported)) new
                        (Agrees-filled f r e.reported (h.agrees r.intent.intent_id r t))
                  | inr (ne, old) ↦
                      let known : lookup id e.orders ≡ some x =
                        rw (← (check_fill_orders f r e).0) old in
                      Agrees-other f (filled f r) x e.reported
                        (rw (h.persisted.keyed id x known) ne) (h.agrees id x known)
                ])
      ]

fill_order-Agrees :
    (f : Fill) (o : Option OrderRecord) (e : Engine)
    → IsAccounted e
    → ((r : OrderRecord) → o ≡ some r → lookup r.intent.intent_id e.orders ≡ some r)
    → (id : String) (x : OrderRecord) → lookup id (fill_order f o e).orders ≡ some x
    → Agrees x (fill_order f o e).reported
unfolding fill_order insert_fill
fill_order-Agrees f none e h t id x l = h.agrees id x l
fill_order-Agrees f (some r) e h t id x l = elim (Bool-cases (contains f.fill_id e.store.fills)) [
  | inl old ↦ rw old (h.agrees id x (rw old at l))
  | inr new ↦ rw new (
      book_fill-Agrees f r
        (record e { store = record (e.store) { fills = insert f.fill_id f e.store.fills } })
        (record {
          persisted = record { keyed = h.persisted.keyed; written = h.persisted.written };
          agrees = h.agrees;
        })
        (t r refl) id x (rw new at l))
]

update_status-Agrees :
    (u : OrderUpdate) (o : Option OrderRecord) (e : Engine)
    → IsAccounted e
    → ((r : OrderRecord) → o ≡ some r → lookup r.intent.intent_id e.orders ≡ some r)
    → (id : String) (x : OrderRecord) → lookup id (update_status u o e).orders ≡ some x
    → Agrees x (update_status u o e).reported
unfolding update_status save
update_status-Agrees u none e h t id x l = h.agrees id x l
update_status-Agrees u (some r) e h t id x l = elim (Bool-cases (is_terminal r.status)) [
  | inl done ↦ rw done (h.agrees id x (rw done at l))
  | inr running ↦
      rw (running, (noted_same u r e).2)
        (elim (lookup-insert_cases r.intent.intent_id id (updated u r) (noted u r e).orders
          (rw running at l)) [
            | inl new ↦
                subst (λ y. Agrees y e.reported) new (h.agrees r.intent.intent_id r (t r refl))
            | inr (ne, old) ↦ h.agrees id x (rw (← (noted_same u r e).0) old)
          ])
]

apply_event-Agrees :
    (v : ExecutionEvent) (e : Engine)
    → IsAccounted e
    → (id : String) (x : OrderRecord) → lookup id (apply_event v e).orders ≡ some x
    → Agrees x (apply_event v e).reported
unfolding apply_event apply_fill apply_update
apply_event-Agrees (ExecutionEvent.fill f) e h id x l =
    fill_order-Agrees f (find_order f.intent_id f.exchange_order_id e) e h
      (λ r p. find_order-tracked f.intent_id f.exchange_order_id e r h.persisted p) id x l
apply_event-Agrees (ExecutionEvent.update u) e h id x l =
    update_status-Agrees u (find_order u.intent_id (some u.exchange_order_id) e) e h
      (λ r p. find_order-tracked u.intent_id (some u.exchange_order_id) e r h.persisted p) id x l

apply_event-IsAccounted :
    (v : ExecutionEvent) (e : Engine) → IsAccounted e → IsAccounted (apply_event v e)
apply_event-IsAccounted v e h = record {
  persisted = apply_event-IsPersisted v e h.persisted;
  agrees = apply_event-Agrees v e h;
}

-- Through any events, repeated, foreign or in breach of a limit, the shares, notional and fees of
-- every tracked order stay the sums over the fills reported for it, and the database stays in step.
pub apply_events-IsAccounted :
    (vs : List ExecutionEvent) (e : Engine) → IsAccounted e → IsAccounted (apply_events vs e)
unfolding apply_events
apply_events-IsAccounted [] e h = h
apply_events-IsAccounted (v ∷ vs) e h =
    apply_events-IsAccounted vs (apply_event v e) (apply_event-IsAccounted v e h)
