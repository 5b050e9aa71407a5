-- ===== src/Replay/Order.antt =====
-- The order of the events of a whole replay (src/polymarket_bot/app/replay_engine.py), and of the
-- messages of a recorded session (src/polymarket_bot/data/replay.py).
use mathlib.Core.List.{append-nil}
use claude_route.Base.{
  ℕ, suc, ◌+◌, ◌-◌, ◌≤◌, ◌<◌, ◌≡◌, refl, ap, ◌∙◌, subst, String, false, not, Option, none, some,
  List, [], ◌∷◌, ltb, leb, str_eq, ok, err, if_cases, arith, All,
}
use claude_route.Replay.{
  Envelope, Line, blank, corrupt, envelope, RawMessage, Position, ReplayError, is_market_data, read,
  Step, Yield, places, read_line, follow, read_lines, iter_messages,
}
use claude_route.Replay.Engine.{Event, apply, ticks_before, schedule, run_replay}
use claude_route.Replay.Clock.{new, end_of, moved, advance_all, advance_all-first}
use claude_route.Replay.Lookahead.{
  From, AfterMessage, NoLookahead, applied, Above, weaken, Above-AfterMessage, Above-mono, Fits,
  ticks_until-Fits,
}

-- Events in order, from `next` and `last` on, that bring just these messages
abbrev Brings : ℕ → ℕ → List RawMessage → List Event → Type 0
Brings next last ms es = NoLookahead es × All (Above next last) es × (applied es ≡ ms)

ticks_before-Fits :
    (interval next bound : ℕ) → 0 < interval → Fits next bound (ticks_before interval next bound)
ticks_before-Fits interval next bound h =
    ticks_until-Fits (bound - next) interval next bound h (omega arith)

schedule-Brings :
    (interval tail_ms last next : ℕ)
    → (ms : List RawMessage) → (e : Option ReplayError) → 0 < interval
    → From last ms
    → Brings next last ms (schedule interval tail_ms last next (ms, e))
schedule-Brings interval tail_ms last next [] (some e) h f = (tt, tt, refl)
schedule-Brings interval tail_ms last next [] none h f =
    let bound = suc (last + tail_ms) in
    let ts = (ticks_before interval next bound).0 in
    let (_, _, rest) = ticks_before-Fits interval next bound h in
    let (order, above, same) = rest [] tt tt in
    subst (Brings next last []) (append-nil ts) (
      order,
      weaken (Above next bound) (Above next last)
          (Above-mono next next last bound (omega arith) (omega arith)) _ above,
      same,
    )
schedule-Brings interval tail_ms last next (m ∷ ms) e h (f, g) =
    let r = ticks_before interval next m.received_ms in
    let (reached, _, rest) = ticks_before-Fits interval next m.received_ms h in
    let (order, above, same) = schedule-Brings interval tail_ms m.received_ms r.1 ms e h g in
    let (order', above', same') =
      rest (apply m ∷ schedule interval tail_ms m.received_ms r.1 (ms, e))
        (
          weaken (Above r.1 m.received_ms) (AfterMessage m.received_ms)
              (Above-AfterMessage m.received_ms r.1 m.received_ms reached (omega arith)) _ above,
          order,
        )
        (omega arith, above) in
    (
      order',
      weaken (Above next m.received_ms) (Above next last)
          (Above-mono next next last m.received_ms (omega arith) f) _ above',
      same' ∙ ap (λ xs. m ∷ xs) same,
    )

From-mono : (lo hi : ℕ) → lo ≤ hi → (ms : List RawMessage) → From hi ms → From lo ms
From-mono lo hi h [] f = tt
From-mono lo hi h (m ∷ ms) (f, g) = (omega (arith, h, f), g)

-- A line keeps the time, or moves it to the time of the message that it yields.
abbrev Later : ℕ → Step → Type 0
Later lo (err e) = Unit
Later lo (ok (p, none)) = lo ≤ p.last_t
Later lo (ok (p, some m)) = (lo ≤ m.received_ms) × (p.last_t ≡ m.received_ms)

read-Later :
    (part : String)
    → (n : ℕ) → (p : Position) → (e : Envelope) → Later p.last_t (read false part n p e)
unfolding read
read-Later part n p e =
    if_cases (Later p.last_t) (leb e.seq p.last_seq) (λ _. tt)
      (λ _.
        if_cases (Later p.last_t) (str_eq e.src "bot") (λ _. omega arith)
          (λ _.
            if_cases (Later p.last_t) (not (is_market_data e.src)) (λ _. tt)
              (λ _.
                if_cases (Later p.last_t) (ltb e.t p.last_t) (λ _. tt)
                  (λ h. (ground arith, refl)))))

read_line-Later :
    (part : String)
    → (n : ℕ) → (l : Line) → (p : Position) → Later p.last_t (read_line false part n l p)
read_line-Later part n blank p = omega arith
read_line-Later part n corrupt p = tt
read_line-Later part n (envelope e) p = read-Later part n p e

follow-From :
    (lo : ℕ)
    → (s : Step) → (rest : Position → Yield) → Later lo s
    → ((p : Position) → From p.last_t (rest p).0)
    → From lo (follow s rest).0
follow-From lo (err e) rest h f = tt
follow-From lo (ok (p, none)) rest h f = From-mono lo p.last_t h _ (f p)
follow-From lo (ok (p, some m)) rest (h, k) f = (h, subst (λ t. From t (rest p).0) k (f p))

read_lines-From :
    (ls : List (String × ℕ × Line)) → (p : Position) → From p.last_t (read_lines false ls p).0
read_lines-From [] p = tt
read_lines-From ((part, n, l) ∷ ls) p =
    follow-From p.last_t (read_line false part n l p) (read_lines false ls)
      (read_line-Later part n l p) (read_lines-From ls)

-- Without the records of the bot, a session is read in the order in which it was received.
iter_messages-From : (parts : List (String × List Line)) → From 0 (iter_messages false parts).0
unfolding iter_messages
iter_messages-From parts = read_lines-From (places parts) (record { last_t = 0; last_seq = 0 })

-- The start of the clock
abbrev pub first_ms : List RawMessage → ℕ
first_ms [] = 0
first_ms (m ∷ ms) = m.received_ms

-- Events without lookahead that bring just these messages, and do so on the clock that the first
-- message starts: none of them fails, and behind them it stands at the last event's time.
abbrev pub IsInOrder : List RawMessage → List Event → Type 0
IsInOrder ms es =
    NoLookahead es
    × (applied es ≡ ms)
    × (advance_all es (new (first_ms ms)) ≡ some (moved (first_ms ms) (end_of (first_ms ms) es)))

run_replay-IsInOrder_sorted :
    (interval tail_ms : ℕ)
    → (ms : List RawMessage) → (e : Option ReplayError) → 0 < interval
    → From 0 ms
    → IsInOrder ms (run_replay interval tail_ms (ms, e)).0
unfolding run_replay
run_replay-IsInOrder_sorted interval tail_ms [] none h f = (tt, refl, refl)
run_replay-IsInOrder_sorted interval tail_ms [] (some e) h f = (tt, refl, refl)
run_replay-IsInOrder_sorted interval tail_ms (m ∷ ms) e h (f, g) =
    let r = m.received_ms in
    let es = schedule interval tail_ms r (r + interval) (ms, e) in
    let (order, above, same) = schedule-Brings interval tail_ms r (r + interval) ms e h g in
    let order' : NoLookahead (apply m ∷ es) = (
      weaken (Above (r + interval) r) (AfterMessage r)
          (Above-AfterMessage r (r + interval) r (omega arith) (omega arith)) es above,
      order,
    ) in
    (order', ap (λ xs. m ∷ xs) same, advance_all-first m es order')

-- In a replay of a recorded session, readable to its end or not, with a decision interval that is
-- not zero, every message that the session yields is applied, once and in its order; behind a
-- decision tick come only later ticks and messages received after it, so that no decision sees a
-- message from its future; behind a message come only ticks at its time of receipt or later and
-- messages received no earlier; and the simulated clock, started at the first message, never
-- refuses an event: behind the last it stands at that event's time, and its monotonic time has
-- grown by just the milliseconds between, in nanoseconds.
pub run_replay-IsInOrder :
    (interval tail_ms : ℕ)
    → (parts : List (String × List Line)) → 0 < interval
    → IsInOrder
        (iter_messages false parts).0
        (run_replay interval tail_ms (iter_messages false parts)).0
run_replay-IsInOrder interval tail_ms parts h =
    run_replay-IsInOrder_sorted interval tail_ms (iter_messages false parts).0
      (iter_messages false parts).1 h (iter_messages-From parts)
