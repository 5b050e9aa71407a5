-- ===== src/Domain/Json.antt =====
-- The values that audit payloads and the details of a state change hold (`dict[str, Any]`).
-- `number` is any integer; the floats of the health summary are rendered as text.
use claude_route.Base.{String, Option, none, some, str_eq, if◌then◌else◌}
use claude_route.Base.Int.{ℤ}
use mathlib.Core.Bool.{Bool}

mutual
  pub data Json : Type 0 where
    null : Json
    bool : Bool → Json
    number : ℤ → Json
    text : String → Json
    array : Items → Json
    object : Fields → Json

  pub data Items : Type 0 where
    nil : Items
    cons : Json → Items → Items

  pub data Fields : Type 0 where
    end : Fields
    field : String → Json → Fields → Fields

-- `d.get(k)` of a JSON object
abbrev pub get_field : String → Fields → Option Json
get_field k end = none
get_field k (field j v r) = if str_eq j k then some v else get_field k r
