-- ===== src/Execution/Persisted.antt =====
-- Proofs on the table `orders` beside the orders that the engine tracks.
use claude_route.Base.{
  ◌≡◌, ◌⊎◌, inl, inr, refl, String, Option, none, some, arith, str_eq, eq_iff, Bool-cases, subst,
  sym, not, ◌||◌, ap,
}
use claude_route.Base.Dict.{lookup, lookup-insert, contains}
use claude_route.Domain.Types.{same_side, is_terminal}
use claude_route.Domain.Orders.{OrderRecord, Fill, OrderUpdate, ExecutionEvent}
use claude_route.Execution.{
  Engine, truthy, save, insert_fill, find_order, by_intent, by_exchange, or_else,
}
use claude_route.Execution.Events.{
  filled, check_fill, noted, book_fill, fill_order, apply_fill, updated, update_status,
  apply_update, apply_event,
}

pub record IsPersisted (e : Engine) : Type 0 where
  pub keyed :
      (id : String) (r : OrderRecord) → lookup id e.orders ≡ some r → r.intent.intent_id ≡ id
  pub written :
      (id : String) (r : OrderRecord)
      → lookup id e.orders ≡ some r
      → lookup id e.store.orders ≡ some r

by_intent_found :
    (o : Option String) (e : Engine) (r : OrderRecord)
    → by_intent o e ≡ some r
    → (id : String) × (lookup id e.orders ≡ some r)
by_intent_found none e r h = cc
by_intent_found (some id) e r h = (id, h)

by_exchange_found :
    (o : Option String) (e : Engine) (r : OrderRecord)
    → by_exchange o e ≡ some r
    → (id : String) × (lookup id e.orders ≡ some r)
by_exchange_found none e r h = cc
by_exchange_found (some x) e r h = by_intent_found (lookup x e.by_exchange_id) e r h

or_else_cases :
    (a b : Option OrderRecord) (r : OrderRecord)
    → or_else a b ≡ some r
    → (a ≡ some r) ⊎ (b ≡ some r)
or_else_cases none b r h = inr h
or_else_cases (some q) b r h = inl h

find_order_found :
    (i x : Option String) (e : Engine) (r : OrderRecord)
    → find_order i x e ≡ some r
    → (id : String) × (lookup id e.orders ≡ some r)
unfolding find_order
find_order_found i x e r h =
    elim (or_else_cases (by_intent (truthy i) e) (by_exchange (truthy x) e) r h) [
      | inl p ↦ by_intent_found (truthy i) e r p
      | inr p ↦ by_exchange_found (truthy x) e r p
    ]

-- What a lookup finds is an order that the engine tracks, under its own id.
pub find_order-tracked :
    (i x : Option String) (e : Engine) (r : OrderRecord)
    → IsPersisted e
    → find_order i x e ≡ some r
    → lookup r.intent.intent_id e.orders ≡ some r
find_order-tracked i x e r p h =
    let (id, found) = find_order_found i x e r h in
    subst (λ k. lookup k e.orders ≡ some r) (sym (p.keyed id r found)) found

-- Saving an order that is tracked, with its intent unchanged.
pub save-IsPersisted :
    (q r : OrderRecord) (e : Engine)
    → IsPersisted e
    → lookup r.intent.intent_id e.orders ≡ some r
    → q.intent ≡ r.intent
    → IsPersisted (save q e)
unfolding save
save-IsPersisted q r e p h same = record {
  keyed = λ id x. ground (
    arith,
    lookup-insert q.intent.intent_id id q e.orders,
    eq_iff q.intent.intent_id id,
    p.keyed id x,
  );
  written = λ id x. ground (
    arith,
    lookup-insert q.intent.intent_id id q e.orders,
    lookup-insert q.intent.intent_id id q e.store.orders,
    eq_iff q.intent.intent_id id,
    p.written id x,
    p.written r.intent.intent_id r,
  );
}

-- Violations and rows of fills leave the invariant alone.
same-IsPersisted :
    (e e' : Engine)
    → IsPersisted e
    → e'.orders ≡ e.orders
    → e'.store.orders ≡ e.store.orders
    → IsPersisted e'
same-IsPersisted e e' p o s = record {
  keyed = λ id x h. p.keyed id x (rw (← o) h);
  written = λ id x h. rw s (p.written id x (rw (← o) h));
}

pub check_fill_orders :
    (f : Fill) (r : OrderRecord) (e : Engine)
    → ((check_fill f r e).orders ≡ e.orders)
      × ((check_fill f r e).store ≡ e.store)
      × ((check_fill f r e).reported ≡ e.reported)
unfolding check_fill
check_fill_orders f r e = ground arith

book_fill-IsPersisted :
    (f : Fill) (r : OrderRecord) (e : Engine)
    → IsPersisted e
    → lookup r.intent.intent_id e.orders ≡ some r
    → IsPersisted (book_fill f r e)
unfolding book_fill
book_fill-IsPersisted f r e p h =
    elim (Bool-cases
      (not (same_side f.side r.intent.side) || not (str_eq f.token_id r.intent.token_id))) [
        | inl bad ↦ rw bad (same-IsPersisted e _ p refl refl)
        | inr good ↦ rw good (
            same-IsPersisted (save (filled f r) (check_fill f r e)) _
              (save-IsPersisted (filled f r) r (check_fill f r e)
                (same-IsPersisted e (check_fill f r e) p (check_fill_orders f r e).0
                  (ap (λ s. s.orders) (check_fill_orders f r e).1))
                (rw ((check_fill_orders f r e).0) h) refl)
              refl refl)
      ]

fill_order-IsPersisted :
    (f : Fill) (o : Option OrderRecord) (e : Engine)
    → IsPersisted e
    → ((r : OrderRecord) → o ≡ some r → lookup r.intent.intent_id e.orders ≡ some r)
    → IsPersisted (fill_order f o e)
unfolding fill_order insert_fill
fill_order-IsPersisted f none e p h = same-IsPersisted e _ p refl refl
fill_order-IsPersisted f (some r) e p h = elim (Bool-cases (contains f.fill_id e.store.fills)) [
  | inl old ↦ rw old p
  | inr new ↦ rw new (book_fill-IsPersisted f r _ (same-IsPersisted e _ p refl refl) (h r refl))
]

-- The engine that an update is saved to.
pub noted_same :
    (u : OrderUpdate) (r : OrderRecord) (e : Engine)
    → ((noted u r e).orders ≡ e.orders)
      × ((noted u r e).store.orders ≡ e.store.orders)
      × ((noted u r e).reported ≡ e.reported)
unfolding noted
noted_same u r e = ground arith

update_status-IsPersisted :
    (u : OrderUpdate) (o : Option OrderRecord) (e : Engine)
    → IsPersisted e
    → ((r : OrderRecord) → o ≡ some r → lookup r.intent.intent_id e.orders ≡ some r)
    → IsPersisted (update_status u o e)
unfolding update_status
update_status-IsPersisted u none e p h = same-IsPersisted e _ p refl refl
update_status-IsPersisted u (some r) e p h = elim (Bool-cases (is_terminal r.status)) [
  | inl done ↦ rw done p
  | inr running ↦ rw running (
      save-IsPersisted (updated u r) r _
        (same-IsPersisted e (noted u r e) p (noted_same u r e).0 (noted_same u r e).1)
        (rw ((noted_same u r e).0) (h r refl)) refl)
]

-- Every event, ours or not, well-formed or in breach of a limit, keeps each tracked order in the
-- database as the engine has it.
pub apply_event-IsPersisted :
    (x : ExecutionEvent) (e : Engine) → IsPersisted e → IsPersisted (apply_event x e)
unfolding apply_event apply_fill apply_update
apply_event-IsPersisted (ExecutionEvent.fill f) e p =
    fill_order-IsPersisted f (find_order f.intent_id f.exchange_order_id e) e p
      (λ r h. find_order-tracked f.intent_id f.exchange_order_id e r p h)
apply_event-IsPersisted (ExecutionEvent.update u) e p =
    update_status-IsPersisted u (find_order u.intent_id (some u.exchange_order_id) e) e p
      (λ r h. find_order-tracked u.intent_id (some u.exchange_order_id) e r p h)
