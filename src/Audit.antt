-- ===== src/Audit.antt =====
-- The audit log of src/polymarket_bot/audit/audit_log.py: `AuditLog` over its file of JSON lines,
-- and `verify_audit_log`. The file is the list of its lines, as `json.loads` reads them. An object
-- is written with its keys in the order of `canonical_dumps`, which sorts them. `hash` is the
-- SHA-256 of that text, and `redact` the scrubbing of one string by security/redaction.py.
pub mod Chain
pub mod Append
pub mod Tamper
mod Tests
use claude_route.Base.{
  ℕ, suc, ◌+◌, String, Bool, true, false, not, Option, none, some, List, [], ◌∷◌, ◌++◌, ◌==◌,
  str_eq, Result, ok, err, ◌>>=◌, if◌then◌else◌,
}
use claude_route.Base.Int.{ℤ}
use claude_route.Domain.Json.{Json, Items, Fields, get_field}

abbrev pub genesis_hash : String
genesis_hash = "0000000000000000000000000000000000000000000000000000000000000000"

-- A line of the file: white space, a JSON object, or text that `json.loads` refuses.
pub data Line : Type 0 where
  blank : Line
  entry : Fields → Line
  garbled : Line

-- `redact_obj`: strings are scrubbed wherever they stand, keys are kept.
abbrev mutual
  pub redact_obj : (String → String) → Json → Json
  redact_obj redact (Json.text s) = Json.text (redact s)
  redact_obj redact (Json.array vs) = Json.array (redact_items redact vs)
  redact_obj redact (Json.object fs) = Json.object (redact_fields redact fs)
  redact_obj redact Json.null = Json.null
  redact_obj redact (Json.bool b) = Json.bool b
  redact_obj redact (Json.number n) = Json.number n

  pub redact_items : (String → String) → Items → Items
  redact_items redact Items.nil = Items.nil
  redact_items redact (Items.cons v vs) = Items.cons (redact_obj redact v) (redact_items redact vs)

  pub redact_fields : (String → String) → Fields → Fields
  redact_fields redact Fields.end = Fields.end
  redact_fields redact (Fields.field k v fs) =
      Fields.field k (redact_obj redact v) (redact_fields redact fs)

-- `ended` tells whether the last line of the file ends with its newline; a file without a line
-- counts as ended.
pub record AuditLog : Type 0 where
  pub file : Option (List Line)
  pub ended : Bool
  pub seq : ℕ
  pub prev : String

-- Why `_load_tail` raises. `unexpected_type`: a sequence number or a hash of a JSON type that
-- `append` never writes.
pub data LoadError : Type 0 where
  decode_error key_error unexpected_type : LoadError

-- The lines that are not blank, in their order.
abbrev pub last_line : Option Line → List Line → Option Line
last_line last [] = last
last_line last (blank ∷ ls) = last_line last ls
last_line last (l ∷ ls) = last_line (some l) ls

-- `int(record["seq"])`; a Python bool is an integer.
abbrev pub to_int : Option Json → Result LoadError ℕ
to_int none = err key_error
to_int (some (Json.number (ℤ.pos n))) = ok n
to_int (some (Json.bool b)) = ok (if b then 1 else 0)
to_int (some _) = err unexpected_type

-- `str(record["hash"])`
abbrev pub to_str : Option Json → Result LoadError String
to_str none = err key_error
to_str (some (Json.text s)) = ok s
to_str (some _) = err unexpected_type

abbrev pub read_tail : Option Line → Result LoadError (ℕ × String)
read_tail none = ok (0, genesis_hash)
read_tail (some (entry r)) =
    to_int (get_field "seq" r) >>= λ n. to_str (get_field "hash" r) >>= λ h. ok (n, h)
read_tail (some _) = err decode_error

-- `_load_tail`
unfoldable pub load_tail : Option (List Line) → Result LoadError (ℕ × String)
load_tail none = ok (0, genesis_hash)
load_tail (some lines) = read_tail (last_line none lines)

-- `AuditLog.__init__`
unfoldable pub open_log : Option (List Line) → Bool → Result LoadError AuditLog
open_log file ended =
    load_tail file >>= λ t. ok (record { file = file; ended = ended; seq = t.0; prev = t.1 })

-- The body of a record, before its hash is added.
abbrev pub body_of : ℕ → String → Fields → ℕ → String → Fields
body_of ts_ms kind payload seq prev = Fields.field "kind" (Json.text kind) (
    Fields.field "payload" (Json.object payload) (
      Fields.field "prev_hash" (Json.text prev) (
        Fields.field "seq" (Json.number (ℤ.pos seq))
          (Fields.field "ts_ms" (Json.number (ℤ.pos ts_ms)) Fields.end))))

abbrev pub lines_of : Option (List Line) → List Line
lines_of none = []
lines_of (some ls) = ls

-- A line whose newline is missing, and an object written behind it: `json.loads` skips white space
-- in front of an object, and refuses all else that stands there.
abbrev glued : Line → Fields → Line
glued blank r = entry r
glued (entry q) r = garbled
glued garbled r = garbled

-- The lines behind a write that appends `r` and a newline
abbrev pub write_line : Bool → List Line → Fields → List Line
write_line true ls r = ls ++ entry r ∷ []
write_line false [] r = entry r ∷ []
write_line false (l ∷ []) r = glued l r ∷ []
write_line false (l ∷ m ∷ ls) r = l ∷ write_line false (m ∷ ls) r

-- `record.pop("hash", None)`: what is left of the record
abbrev pub drop_field : String → Fields → Fields
drop_field k Fields.end = Fields.end
drop_field k (Fields.field j v r) =
    let rest = drop_field k r in if str_eq j k then rest else Fields.field j v rest

-- `record.get(k) != s` for a string
abbrev pub is_text : String → Option Json → Bool
is_text s (some (Json.text t)) = str_eq t s
is_text s _ = false

-- `record.get("seq") != expected_seq`: True equals 1 and False equals 0.
abbrev pub is_int : ℕ → Option Json → Bool
is_int n (some (Json.number (ℤ.pos m))) = m == n
is_int n (some (Json.bool b)) = (if b then 1 else 0) == n
is_int n _ = false

-- What the loop of `verify_audit_log` keeps; `lineno` is the line it reads next.
pub record Scan : Type 0 where
  pub lineno : ℕ
  pub prev : String
  pub expected_seq : ℕ
  pub count : ℕ

pub data Problem : Type 0 where
  broken_chain hash_mismatch : Problem
  unexpected_seq : Option Json → Problem

-- How the loop is left early: `json.loads` raises, or the verdict is False with the number of
-- records that were fine, the line and what is wrong with it.
pub data Stop : Type 0 where
  raised : Stop
  refused : ℕ → ℕ → Problem → Stop

module _ (hash : Fields → String) where
  -- `append`
  unfoldable pub append : (String → String) → ℕ → String → Fields → AuditLog → AuditLog
  append redact now kind payload log =
      let body = body_of now kind (redact_fields redact payload) (suc log.seq) log.prev in
      let digest = hash body in
      record {
        file = some (
            write_line log.ended (lines_of log.file) (Fields.field "hash" (Json.text digest) body));
        ended = true;
        seq = suc log.seq;
        prev = digest;
      }

  unfoldable pub check_record : Scan → Fields → Result Stop Scan
  check_record s r =
      let body = drop_field "hash" r in
      let digest = hash body in
      if not (is_text s.prev (get_field "prev_hash" body))
      then err (refused s.count s.lineno broken_chain)
      else if not (is_int s.expected_seq (get_field "seq" body))
      then err (refused s.count s.lineno (unexpected_seq (get_field "seq" body)))
      else if not (is_text digest (get_field "hash" r))
      then err (refused s.count s.lineno hash_mismatch)
      else ok (record {
        lineno = suc s.lineno;
        prev = digest;
        expected_seq = suc s.expected_seq;
        count = suc s.count;
      })

  abbrev pub check_line : Scan → Line → Result Stop Scan
  check_line s blank = ok (record s { lineno = suc s.lineno })
  check_line s (entry r) = check_record s r
  check_line s garbled = err raised

  abbrev pub scan : Scan → List Line → Result Stop Scan
  scan s [] = ok s
  scan s (l ∷ ls) = check_line s l >>= λ t. scan t ls

  -- `verify_audit_log`: the number of records where all are fine
  unfoldable pub verify_audit_log : Option (List Line) → Result Stop ℕ
  verify_audit_log none = ok 0
  verify_audit_log (some lines) =
      scan (record { lineno = 1; prev = genesis_hash; expected_seq = 1; count = 0 }) lines >>= λ s.
      ok s.count
