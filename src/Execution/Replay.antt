-- ===== src/Execution/Replay.antt =====
-- Proofs on a fill that is delivered again to `_apply_fill`.
use claude_route.Base.{
  ◌≡◌, inl, inr, refl, ap, String, true, not, ◌||◌, Option, none, some, arith, is_some, str_eq,
  Bool-cases,
}
use claude_route.Base.Dict.{lookup, contains, lookup-insert, lookup-insert_self}
use claude_route.Domain.Types.{same_side}
use claude_route.Domain.Orders.{Fill, OrderRecord}
use claude_route.Execution.{
  Engine, save, insert_fill, find_order, by_intent, by_exchange, or_else, truthy,
}
use claude_route.Execution.Events.{filled, check_fill, book_fill, fill_order, apply_fill}

-- What a fill leaves in place: the rows of fills, the index, and each order that was tracked.
record Extends (e e' : Engine) : Type 0 where
  same_index : e'.by_exchange_id ≡ e.by_exchange_id
  tracks :
      (id : String) → is_some (lookup id e.orders) ≡ true → is_some (lookup id e'.orders) ≡ true

Extends-by_intent :
    (o : Option String) (e e' : Engine)
    → Extends e e'
    → is_some (by_intent o e) ≡ true
    → is_some (by_intent o e') ≡ true
Extends-by_intent none e e' k h = cc
Extends-by_intent (some i) e e' k h = k.tracks i h

Extends-by_exchange :
    (o : Option String) (e e' : Engine)
    → Extends e e'
    → is_some (by_exchange o e) ≡ true
    → is_some (by_exchange o e') ≡ true
Extends-by_exchange none e e' k h = cc
Extends-by_exchange (some x) e e' k h =
    simp (k.same_index) (Extends-by_intent (lookup x e.by_exchange_id) e e' k h)

or_else_some :
    (a b a' b' : Option OrderRecord)
    → (is_some a ≡ true → is_some a' ≡ true)
    → (is_some b ≡ true → is_some b' ≡ true)
    → is_some (or_else a b) ≡ true
    → is_some (or_else a' b') ≡ true
or_else_some a b a' b' h k o = ground arith

Extends-find_order :
    (i x : Option String) (e e' : Engine)
    → Extends e e'
    → is_some (find_order i x e) ≡ true
    → is_some (find_order i x e') ≡ true
unfolding find_order
Extends-find_order i x e e' k =
    or_else_some (by_intent (truthy i) e) (by_exchange (truthy x) e) (by_intent (truthy i) e')
      (by_exchange (truthy x) e') (Extends-by_intent (truthy i) e e' k)
      (Extends-by_exchange (truthy x) e e' k)

check_fill_same :
    (f : Fill) (r : OrderRecord) (e : Engine)
    → ((check_fill f r e).orders ≡ e.orders)
      × ((check_fill f r e).by_exchange_id ≡ e.by_exchange_id)
      × ((check_fill f r e).store ≡ e.store)
unfolding check_fill
check_fill_same f r e = ground arith

book_fill-Extends : (f : Fill) (r : OrderRecord) (e : Engine) → Extends e (book_fill f r e)
unfolding book_fill save
book_fill-Extends f r e =
    elim (Bool-cases
      (not (same_side f.side r.intent.side) || not (str_eq f.token_id r.intent.token_id))) [
        | inl bad ↦ rw bad (record { same_index = refl; tracks = λ id h. h })
        | inr good ↦ rw good (record {
          same_index = (check_fill_same f r e).1;
          tracks = λ id h.
              rw ((check_fill_same f r e).0)
                (ground (arith, lookup-insert r.intent.intent_id id (filled f r) e.orders));
        })
      ]

book_fill_fills :
    (f : Fill) (r : OrderRecord) (e : Engine) → (book_fill f r e).store.fills ≡ e.store.fills
unfolding book_fill save
book_fill_fills f r e =
    elim (Bool-cases
      (not (same_side f.side r.intent.side) || not (str_eq f.token_id r.intent.token_id))) [
        | inl bad ↦ rw bad refl
        | inr good ↦ rw good (ap (λ s. s.fills) (check_fill_same f r e).2)
      ]

-- Behind a fill of a known order its row is there, and the order is still found.
fill_order_known :
    (f : Fill) (r : OrderRecord) (e : Engine)
    → Extends e (fill_order f (some r) e)
      × (contains f.fill_id (fill_order f (some r) e).store.fills ≡ true)
unfolding fill_order insert_fill
fill_order_known f r e = elim (Bool-cases (contains f.fill_id e.store.fills)) [
  | inl old ↦ rw old (record { same_index = refl; tracks = λ id h. h }, old)
  | inr new ↦ rw new (
      (
        record {
          same_index = (book_fill-Extends f r _).same_index;
          tracks = (book_fill-Extends f r _).tracks;
        },
        rw book_fill_fills (rw lookup-insert_self refl),
      ))
]

seen_twice :
    (f : Fill) (o : Option OrderRecord) (e : Engine)
    → is_some o ≡ true
    → contains f.fill_id e.store.fills ≡ true
    → fill_order f o e ≡ e
unfolding fill_order insert_fill
seen_twice f none e h k = cc
seen_twice f (some r) e h k = rw k refl

twice :
    (f : Fill) (o : Option OrderRecord) (e : Engine)
    → find_order f.intent_id f.exchange_order_id e ≡ o
    → is_some o ≡ true
    → apply_fill f (fill_order f o e) ≡ fill_order f o e
unfolding apply_fill
twice f none e q h = cc
twice f (some r) e q h =
    let known = fill_order_known f r e in
    seen_twice f _ (fill_order f (some r) e)
      (Extends-find_order f.intent_id f.exchange_order_id e _ known.0 (rw q refl)) known.1

-- Applying a fill of a known order once more changes nothing: not the order, not the violations,
-- and `on_fill` is not called again.
pub fill_applied_once :
    (f : Fill) (e : Engine)
    → is_some (find_order f.intent_id f.exchange_order_id e) ≡ true
    → apply_fill f (apply_fill f e) ≡ apply_fill f e
unfolding apply_fill
fill_applied_once f e h = twice f (find_order f.intent_id f.exchange_order_id e) e refl h
