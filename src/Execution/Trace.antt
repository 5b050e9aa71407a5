-- ===== src/Execution/Trace.antt =====
-- The engine over sequences of calls.
use claude_route.Base.{
  ℕ, ◌≡◌, refl, ap, String, false, Option, none, some, List, [], ◌∷◌, arith, any, str_eq, eq_iff,
  Result, ok, err, inl, inr, ◌∙◌, Option-cases,
}
use claude_route.Domain.Types.{Side}
use claude_route.Domain.Orders.{OrderIntent, OrderRecord, ExecutionEvent}
use claude_route.Domain.Market.{MarketDefinition}
use claude_route.Domain.Decisions.{RiskDecision}
use claude_route.Execution.{Config, Engine, Store, start, save, truthy}
use claude_route.Execution.Submit.{
  ExecutionError, Submission, is_used, draft, submit, outcome_record, finish, execute,
}
use claude_route.Execution.Begun.{execute-Executed}
use claude_route.Execution.Events.{apply_events}
use claude_route.Execution.Resolve.{
  load_open_orders, resolve_unknown, mark_order, mark_resolved_no_fill,
}
use claude_route.Execution.Once.{
  Fresh, NoRepeat, Marked, IsOnce, Keeps-IsOnce, same-Keeps, apply_events-Keeps,
  load_open_orders-Keeps, resolve_each-Keeps,
}

-- A decision that is not used is not that of an intent whose decision is.
Fresh-Marked :
    (d : String) (used : List String) (is : List OrderIntent)
    → any (str_eq d) used ≡ false
    → Marked used is
    → Fresh d is
Fresh-Marked d used [] h m = tt
Fresh-Marked d used (i ∷ is) h m =
    ground (arith, eq_iff d i.decision_id, Fresh-Marked d used is h m.1)

Marked-cons :
    (d : String) (used : List String) (is : List OrderIntent)
    → Marked used is
    → Marked (d ∷ used) is
Marked-cons d used [] m = tt
Marked-cons d used (i ∷ is) m = ground (arith, Marked-cons d used is m.1)

submit-IsOnce :
    (i : OrderIntent) (s : Store) (e : Engine)
    → IsOnce e
    → is_used i.decision_id e ≡ false
    → IsOnce (submit i s e)
submit-IsOnce i s e h u = record {
  no_repeat = (Fresh-Marked i.decision_id e.used_decisions e.submitted u h.marked, h.no_repeat);
  marked = (
    ground (arith, eq_iff i.decision_id i.decision_id),
    Marked-cons i.decision_id e.used_decisions e.submitted h.marked,
  );
}

decision_id-draft :
    (s : Side) (c : Config) (now : ℕ) (id : String) (d : RiskDecision) (m : MarketDefinition)
    (outcome : String)
    → (draft s c now id d m outcome).decision_id ≡ d.decision_id
decision_id-draft Side.buy c now id d m outcome = refl
decision_id-draft Side.sell c now id d m outcome = refl

finish_same :
    (s : Submission) (i : OrderIntent) (e : Engine)
    → ((finish s i e).submitted ≡ e.submitted) × ((finish s i e).used_decisions ≡ e.used_decisions)
unfolding finish save
finish_same s i e = elim (Option-cases (truthy (outcome_record s i).exchange_order_id)) [
  | inl h ↦ rw h (refl, refl)
  | inr (x, h) ↦ rw h (refl, refl)
]

execute-IsOnce :
    (c : Config) (now : ℕ) (id : String) (d : RiskDecision) (m : MarketDefinition)
    (outcome : String) (s : Submission) (e e' : Engine)
    → IsOnce e
    → execute c now id d m outcome s e ≡ ok e'
    → IsOnce e'
execute-IsOnce c now id d m outcome s e e' h x =
    let done = execute-Executed c now id d m outcome s e e' x in
    let i = done.intent in
    let approved = done.begun.approved in
    let same_id : i.decision_id ≡ d.decision_id =
      ap (λ (j : OrderIntent). j.decision_id) approved.built
      ∙ decision_id-draft d.side c now id d m outcome in
    let submitted : IsOnce done.middle =
      rw (done.begun.submitted)
        (submit-IsOnce i done.begun.store e h (rw same_id approved.unused)) in
    rw (done.finished) (
      Keeps-IsOnce done.middle _
        (same-Keeps done.middle _ (finish_same s i done.middle).0 (finish_same s i done.middle).1)
        submitted)

pub data Call : Type 0 where
  execute_call : Config → ℕ → String → RiskDecision → MarketDefinition → String → Submission → Call
  events_call : List ExecutionEvent → Call
  load_call : ℕ → Call
  resolve_call : (String → ℕ → Option (List ExecutionEvent)) → Config → ℕ → Call
  mark_call : ℕ → String → String → Call

-- A call that raises leaves the engine as it was.
abbrev pub kept : Engine → Result ExecutionError Engine → Engine
kept e (ok e') = e'
kept e (err x) = e

abbrev pub kept_option : Engine → Option Engine → Engine
kept_option e (some e') = e'
kept_option e none = e

unfoldable pub call : Call → Engine → Engine
call (execute_call c now id d m outcome s) e = kept e (execute c now id d m outcome s e)
call (events_call xs) e = apply_events xs e
call (load_call now) e = load_open_orders now e
call (resolve_call find c now) e = (resolve_unknown find c now e).1
call (mark_call now id reason) e = kept_option e (mark_resolved_no_fill now id reason e)

unfoldable pub run : Engine → List Call → Engine
run e [] = e
run e (x ∷ xs) = run (call x e) xs

mark_order-IsOnce :
    (now : ℕ) (reason : String) (o : Option OrderRecord) (e : Engine)
    → IsOnce e
    → IsOnce (kept_option e (mark_order now reason o e))
unfolding mark_order save
mark_order-IsOnce now reason none e h = h
mark_order-IsOnce now reason (some r) e h = record { no_repeat = h.no_repeat; marked = h.marked }

call-IsOnce : (x : Call) (e : Engine) → IsOnce e → IsOnce (call x e)
unfolding call resolve_unknown mark_resolved_no_fill
call-IsOnce (execute_call c now id d m outcome s) e h =
    by_result (execute c now id d m outcome s e) refl
  where
    by_result :
        (r : Result ExecutionError Engine)
        → execute c now id d m outcome s e ≡ r
        → IsOnce (kept e r)
    by_result (ok e') p = execute-IsOnce c now id d m outcome s e e' h p
    by_result (err x) p = h
call-IsOnce (events_call xs) e h = Keeps-IsOnce e _ (apply_events-Keeps xs e) h
call-IsOnce (load_call now) e h = Keeps-IsOnce e _ (load_open_orders-Keeps now e) h
call-IsOnce (resolve_call find c now) e h = Keeps-IsOnce e _ (resolve_each-Keeps find c now _ e) h
call-IsOnce (mark_call now id reason) e h = mark_order-IsOnce now reason _ e h

run-IsOnce : (e : Engine) (xs : List Call) → IsOnce e → IsOnce (run e xs)
unfolding run
run-IsOnce e [] h = h
run-IsOnce e (x ∷ xs) h = run-IsOnce (call x e) xs (call-IsOnce x e h)

-- From the start of the process, whatever is called in whatever order, no two orders are submitted
-- for one decision.
pub submitted_once : (s : Store) (xs : List Call) → NoRepeat (run (start s) xs).submitted
submitted_once s xs = (run-IsOnce (start s) xs (record { no_repeat = tt; marked = tt })).no_repeat
