-- ===== src/Lifecycle/Journal/Category.antt =====
-- `halt_category` of src/polymarket_bot/lifecycle/halt_journal.py.
use Prim.Native.String.{compare}
use Prim.Native.Nat.{Ordering}
use claude_route.Base.{
  String, Bool, Option, none, some, List, [], ◌∷◌, is_some, str_eq, if◌then◌else◌,
}
use claude_route.Base.Text.{◌<>◌}
use text.Mathlib.Text.{find?}
use claude_route.Domain.Types.{BotState, same_state}
use claude_route.Domain.Json.{Json, Items, Fields, get_field}
use claude_route.Lifecycle.Machine.{StateChange}

-- `_CATEGORY_BY_ANOMALY.get(code, "watchdog")`
abbrev category_by_anomaly : String → String
category_by_anomaly code =
    if str_eq code "market_stream_down"
    then "feed"
    else if str_eq code "market_stream_silent"
    then "feed"
    else if str_eq code "reference_stream_down"
    then "feed"
    else if str_eq code "reference_stream_silent"
    then "feed"
    else if str_eq code "clock_drift"
    then "feed"
    else if str_eq code "clock_drift_unknown"
    then "feed"
    else if str_eq code "reconciliation_stale"
    then "reconciliation"
    else if str_eq code "reconciliation_mismatch"
    then "reconciliation"
    else if str_eq code "unknown_order_state"
    then "execution"
    else if str_eq code "unhandled_exception"
    then "software"
    else if str_eq code "event_loop_stall"
    then "runtime"
    else "watchdog"

-- `str(a.get("code"))`: the text of any other value is no key of the table
abbrev code_of : Option Json → String
code_of (some (Json.text s)) = s
code_of _ = ""

-- Insertion into a sorted list without repetitions: `sorted` of a set.
insert_sorted : String → List String → List String
insert_sorted s [] = s ∷ []
insert_sorted s (t ∷ ts) =
    let rest = insert_sorted s ts in
    elim (compare s t) [ Ordering.lt ↦ s ∷ t ∷ ts | Ordering.eq ↦ t ∷ ts | Ordering.gt ↦ t ∷ rest ]

-- The categories of the anomalies that are dicts.
categories : Items → List String
unfolding insert_sorted
categories Items.nil = []
categories (Items.cons (Json.object a) r) =
    insert_sorted (category_by_anomaly (code_of (get_field "code" a))) (categories r)
categories (Items.cons _ r) = categories r

-- `"+".join(...)`
abbrev join : List String → String
join [] = ""
join (s ∷ []) = s
join (s ∷ t ∷ ts) = s <> "+" <> join (t ∷ ts)

-- `or "watchdog"`
abbrev or_watchdog : String → String
or_watchdog s = if str_eq s "" then "watchdog" else s

-- The last dict of the function; its other three entries map a name to itself.
abbrev component_category : String → String
component_category c =
    if str_eq c "watchdog.loop_stall"
    then "runtime"
    else if str_eq c "resolution"
    then "data"
    else c

-- `piece in s`
abbrev contains_text : String → String → Bool
contains_text piece s = is_some (find? s piece)

-- The category where the details name no anomalies.
abbrev by_reason : StateChange → String
by_reason c =
    if same_state c.to_state BotState.kill_switch
    then if contains_text "loss limit" c.reason
      then "risk"
      else if contains_text "invariant" c.reason
      then "execution"
      else "kill_switch"
    else component_category c.component

by_anomalies : StateChange → Option Json → String
unfolding categories
by_anomalies c (some (Json.array (Items.cons a r))) =
    or_watchdog (join (categories (Items.cons a r)))
by_anomalies c _ = by_reason c

abbrev anomalies : Option Fields → Option Json
anomalies none = none
anomalies (some d) = get_field "anomalies" d

unfoldable pub halt_category : StateChange → String
unfolding by_anomalies
halt_category c = by_anomalies c (anomalies c.details)
