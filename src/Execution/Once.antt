-- ===== src/Execution/Once.antt =====
-- Proofs on the decisions that are submitted: the steps of the engine that submit nothing.
use claude_route.Base.{
  ℕ, ◌≡◌, inl, inr, refl, ◌∙◌, String, true, false, Option, List, [], ◌∷◌, arith, All, any, str_eq,
  Bool-cases, is_empty,
}
use claude_route.Domain.Orders.{Fill, OrderIntent, OrderRecord, OrderUpdate, ExecutionEvent}
use claude_route.Execution.{Config, Engine, save, insert_fill}
use claude_route.Execution.Events.{
  check_fill, noted, book_fill, fill_order, apply_fill, update_status, apply_update, apply_event,
  apply_events,
}
use claude_route.Execution.Resolve.{reopen, remember, load_open_orders, found, resolve_each}

-- None of the intents is of the decision.
abbrev pub Fresh : String → List OrderIntent → Type 0
Fresh d = All (λ i. str_eq d i.decision_id ≡ false)

-- No two intents are of one decision.
abbrev pub NoRepeat : List OrderIntent → Type 0
NoRepeat [] = Unit
NoRepeat (i ∷ is) = Fresh i.decision_id is × NoRepeat is

-- Each decision of a submitted intent is marked as used.
abbrev pub Marked : List String → List OrderIntent → Type 0
Marked used = All (λ i. any (str_eq i.decision_id) used ≡ true)

pub record IsOnce (e : Engine) : Type 0 where
  pub no_repeat : NoRepeat e.submitted
  pub marked : Marked e.used_decisions e.submitted

-- A step that submits nothing and forgets no decision.
pub record Keeps (e e' : Engine) : Type 0 where
  pub same_submitted : e'.submitted ≡ e.submitted
  pub remembers :
      (d : String)
      → any (str_eq d) e.used_decisions ≡ true
      → any (str_eq d) e'.used_decisions ≡ true

Keeps-refl : (e : Engine) → Keeps e e
Keeps-refl e = record { same_submitted = refl; remembers = λ d h. h }

pub Keeps-trans : (e f g : Engine) → Keeps e f → Keeps f g → Keeps e g
Keeps-trans e f g a b = record {
  same_submitted = b.same_submitted ∙ a.same_submitted;
  remembers = λ d h. b.remembers d (a.remembers d h);
}

Marked-Keeps :
    (e e' : Engine) (is : List OrderIntent)
    → Keeps e e'
    → Marked e.used_decisions is
    → Marked e'.used_decisions is
Marked-Keeps e e' [] k h = tt
Marked-Keeps e e' (i ∷ is) k h = (k.remembers i.decision_id h.0, Marked-Keeps e e' is k h.1)

pub Keeps-IsOnce : (e e' : Engine) → Keeps e e' → IsOnce e → IsOnce e'
Keeps-IsOnce e e' k h = record {
  no_repeat = rw (k.same_submitted) h.no_repeat;
  marked = rw (k.same_submitted) (Marked-Keeps e e' e.submitted k h.marked);
}

-- A step that leaves both lists as they are.
pub same-Keeps :
    (e e' : Engine) → e'.submitted ≡ e.submitted → e'.used_decisions ≡ e.used_decisions → Keeps e e'
same-Keeps e e' s u = record { same_submitted = s; remembers = λ d h. rw u h }

fill_order_same :
    (f : Fill) (o : Option OrderRecord) (e : Engine)
    → ((fill_order f o e).submitted ≡ e.submitted)
      × ((fill_order f o e).used_decisions ≡ e.used_decisions)
unfolding fill_order book_fill check_fill save insert_fill
fill_order_same f o e = ground arith

update_status_same :
    (u : OrderUpdate) (o : Option OrderRecord) (e : Engine)
    → ((update_status u o e).submitted ≡ e.submitted)
      × ((update_status u o e).used_decisions ≡ e.used_decisions)
unfolding update_status noted save
update_status_same u o e = ground arith

apply_event-Keeps : (x : ExecutionEvent) (e : Engine) → Keeps e (apply_event x e)
unfolding apply_event apply_fill apply_update
apply_event-Keeps (ExecutionEvent.fill f) e =
    let s = fill_order_same f _ e in same-Keeps e _ s.0 s.1
apply_event-Keeps (ExecutionEvent.update u) e =
    let s = update_status_same u _ e in same-Keeps e _ s.0 s.1

pub apply_events-Keeps : (xs : List ExecutionEvent) (e : Engine) → Keeps e (apply_events xs e)
unfolding apply_events
apply_events-Keeps [] e = Keeps-refl e
apply_events-Keeps (x ∷ xs) e =
    Keeps-trans e (apply_event x e) _ (apply_event-Keeps x e)
      (apply_events-Keeps xs (apply_event x e))

reopen-Keeps : (now : ℕ) (rs : List OrderRecord) (e : Engine) → Keeps e (reopen now rs e)
unfolding reopen
reopen-Keeps now [] e = Keeps-refl e
reopen-Keeps now (r ∷ rs) e = Keeps-trans e _ _ (same-Keeps e _ refl refl) (reopen-Keeps now rs _)

remember-Keeps : (rs : List OrderRecord) (e : Engine) → Keeps e (remember rs e)
unfolding remember
remember-Keeps [] e = Keeps-refl e
remember-Keeps (r ∷ rs) e =
    Keeps-trans e _ _ (record { same_submitted = refl; remembers = λ d h. ground arith })
      (remember-Keeps rs _)

pub load_open_orders-Keeps : (now : ℕ) (e : Engine) → Keeps e (load_open_orders now e)
unfolding load_open_orders
load_open_orders-Keeps now e = Keeps-trans e _ _ (reopen-Keeps now _ e) (remember-Keeps _ _)

pub resolve_each-Keeps :
    (find : String → ℕ → Option (List ExecutionEvent)) (c : Config) (now : ℕ)
    (rs : List OrderRecord) (e : Engine)
    → Keeps e (resolve_each find c now rs e).1
unfolding resolve_each
resolve_each-Keeps find c now [] e = Keeps-refl e
resolve_each-Keeps find c now (r ∷ rs) e =
    elim (Bool-cases (is_empty (found r (find r.intent.token_id r.intent.created_ms)))) [
      | inl empty ↦ rw empty (resolve_each-Keeps find c now rs e)
      | inr some_mine ↦
          rw some_mine
            (Keeps-trans e _ _ (apply_events-Keeps _ e) (resolve_each-Keeps find c now rs _))
    ]
