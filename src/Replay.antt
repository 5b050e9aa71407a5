-- ===== src/Replay.antt =====
-- The recorded sessions of src/polymarket_bot/data/replay.py, read back as messages. A part of a
-- session is the list of its lines as `json.loads` and the tests of `iter_messages` read them; the
-- files themselves are I/O. Times are milliseconds and not negative.
pub mod Engine
pub mod Lookahead
pub mod Clock
pub mod Order
mod Tests
use claude_route.Base.{
  ℕ, suc, ◌≤◌, String, Bool, not, ◌&&◌, Option, none, some, List, [], ◌∷◌, ◌++◌, any, ltb, leb,
  str_eq, Result, ok, err, if◌then◌else◌,
}
use claude_route.Domain.Json.{Json}

-- An envelope whose source, kind, time and sequence number could be read
pub record Envelope : Type 0 where
  pub src : String
  pub kind : String
  pub t : ℕ
  pub seq : ℕ
  pub content : Option Json

pub data Line : Type 0 where
  blank corrupt : Line
  envelope : Envelope → Line

pub record RawMessage : Type 0 where
  pub source : String
  pub kind : String
  pub payload : Option Json
  pub received_ms : ℕ

-- The place is the name of the part and the number of the line.
pub data ReplayError : Type 0 where
  corrupt_envelope sequence_not_increasing unknown_source time_goes_backwards :
      String → ℕ → ReplayError

-- `MARKET_DATA_SOURCES`
abbrev pub is_market_data : String → Bool
is_market_data src =
    any (str_eq src) ("gamma" ∷ "clob_rest" ∷ "clob_ws" ∷ "rtds" ∷ "synthetic" ∷ [])

-- What the loop keeps: the last time of market data and the last sequence number.
pub record Position : Type 0 where
  pub last_t : ℕ
  pub last_seq : ℕ

abbrev pub message : Envelope → RawMessage
message e = record { source = e.src; kind = e.kind; payload = e.content; received_ms = e.t }

-- One envelope: an error, or where the loop stands behind it and the message that it yields
unfoldable pub read :
    Bool → String → ℕ → Position → Envelope → Result ReplayError (Position × Option RawMessage)
read include_bot part lineno p e =
    if leb e.seq p.last_seq
    then err (sequence_not_increasing part lineno)
    else if str_eq e.src "bot"
    then ok (record p { last_seq = e.seq }, if include_bot then some (message e) else none)
    else if not (is_market_data e.src)
    then err (unknown_source part lineno)
    else if ltb e.t p.last_t
    then err (time_goes_backwards part lineno)
    else ok (record { last_t = e.t; last_seq = e.seq }, some (message e))

-- What the generator has yielded when it ends, and the error that it ends with
abbrev pub Yield : Type 0
Yield = List RawMessage × Option ReplayError

abbrev pub yields : Option RawMessage → Yield → Yield
yields none y = y
yields (some m) (ms, e) = (m ∷ ms, e)

-- The lines of all parts with their places
abbrev number : String → ℕ → List Line → List (String × ℕ × Line)
number part n [] = []
number part n (l ∷ ls) = (part, n, l) ∷ number part (suc n) ls

abbrev pub places : List (String × List Line) → List (String × ℕ × Line)
places [] = []
places ((part, ls) ∷ ps) = number part 1 ls ++ places ps

abbrev pub Step : Type 0
Step = Result ReplayError (Position × Option RawMessage)

abbrev pub read_line : Bool → String → ℕ → Line → Position → Step
read_line include_bot part n blank p = ok (p, none)
read_line include_bot part n corrupt p = err (corrupt_envelope part n)
read_line include_bot part n (envelope e) p = read include_bot part n p e

abbrev pub follow : Step → (Position → Yield) → Yield
follow (err e) rest = ([], some e)
follow (ok (p, m)) rest = yields m (rest p)

abbrev pub read_lines : Bool → List (String × ℕ × Line) → Position → Yield
read_lines include_bot [] p = ([], none)
read_lines include_bot ((part, n, l) ∷ ls) p =
    follow (read_line include_bot part n l p) (read_lines include_bot ls)

-- `iter_messages`
unfoldable pub iter_messages : Bool → List (String × List Line) → Yield
iter_messages include_bot parts =
    read_lines include_bot (places parts) (record { last_t = 0; last_seq = 0 })
