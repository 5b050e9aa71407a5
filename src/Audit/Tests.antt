-- ===== src/Audit/Tests.antt =====
-- The audit log on concrete files. The hash of the tests is the number of the record as text.
use claude_route.Base.{
  suc, ◌≡◌, refl, true, false, sym, ◌∙◌, ◌↔◌, inl, inr, String, Option, none, some, List, [], ◌∷◌,
  ok, err,
}
use claude_route.Base.Text.{◌<>◌, decimal}
use claude_route.Base.Int.{ℤ}
use claude_route.Domain.Json.{Json, Fields, get_field}
use claude_route.Audit.{
  Line, blank, entry, AuditLog, Stop, genesis_hash, lines_of, load_tail, open_log, append,
  verify_audit_log,
}
use claude_route.Audit.Chain.{Chain, verify_audit_log-Chain}
use claude_route.Audit.Append.{append-verify_audit_log}
use claude_route.Audit.Tamper.{bodies, NoCollision, same_hash_same_log}

abbrev number_hash : Option Json → String
number_hash (some (Json.number (ℤ.pos n))) = "#" <> decimal n
number_hash _ = "#"

abbrev hash : Fields → String
hash r = number_hash (get_field "seq" r)

abbrev scrub : String → String
scrub s = "[REDACTED]"

abbrev empty_log : AuditLog
empty_log = record { file = none; ended = true; seq = 0; prev = genesis_hash }

abbrev started : Fields
started = Fields.field "mode" (Json.text "paper") Fields.end

abbrev one_line : AuditLog
one_line = append hash scrub 7 "start" started empty_log

abbrev two_lines : AuditLog
two_lines = append hash scrub 9 "stop" Fields.end one_line

verify-two_lines : verify_audit_log hash two_lines.file ≡ ok 2
unfolding append verify_audit_log claude_route.Audit.check_record decimal
verify-two_lines = refl

reopened : open_log two_lines.file two_lines.ended ≡ ok two_lines
unfolding append open_log load_tail decimal
reopened = refl

seq-two_lines : two_lines.seq ≡ 2
unfolding append
seq-two_lines = refl

verify-two_lines_seq : verify_audit_log hash two_lines.file ≡ ok two_lines.seq
verify-two_lines_seq = rw seq-two_lines verify-two_lines

ended-two_lines : two_lines.ended ≡ true
unfolding append
ended-two_lines = refl

-- A file that verifies, but whose last newline is missing, does not after `append`.
abbrev cut_short : AuditLog
cut_short = record one_line { ended = false }

verify-cut_short : verify_audit_log hash cut_short.file ≡ ok 1
unfolding append verify_audit_log claude_route.Audit.check_record decimal
verify-cut_short = refl

verify-append-cut_short :
    verify_audit_log hash (append hash scrub 9 "stop" Fields.end cut_short).file ≡ err Stop.raised
unfolding append verify_audit_log claude_route.Audit.check_record decimal
verify-append-cut_short = refl

-- A blank line changes nothing; a record taken out breaks the chain.
abbrev spaced : Option (List Line)
spaced = some (blank ∷ lines_of one_line.file)

verify-spaced : verify_audit_log hash spaced ≡ ok 1
unfolding append verify_audit_log claude_route.Audit.check_record decimal
verify-spaced = refl

verify-one_line : verify_audit_log hash one_line.file ≡ ok 1
unfolding append verify_audit_log claude_route.Audit.check_record decimal
verify-one_line = refl

abbrev without_first : List Line → List Line
without_first [] = []
without_first (l ∷ ls) = ls

verify-cut :
    verify_audit_log hash (some (without_first (lines_of two_lines.file)))
    ≡ err (Stop.refused 0 1 claude_route.Audit.broken_chain)
unfolding append verify_audit_log claude_route.Audit.check_record decimal
verify-cut = refl

verify_audit_log-Chain_example :
    (verify_audit_log hash two_lines.file ≡ ok 2)
    ↔ ((q : String) × Chain hash genesis_hash 1 (lines_of two_lines.file) q 3)
verify_audit_log-Chain_example = verify_audit_log-Chain hash two_lines.file 2

append-verify_audit_log_example :
    let log' = append hash scrub 11 "stop" Fields.end two_lines in
    (verify_audit_log hash log'.file ≡ ok (suc two_lines.seq))
    × (log'.ended ≡ true)
    × (open_log log'.file log'.ended ≡ ok log')
append-verify_audit_log_example =
    append-verify_audit_log hash scrub 11 "stop" Fields.end two_lines reopened ended-two_lines
      verify-two_lines_seq

same_tail : load_tail spaced ≡ load_tail one_line.file
unfolding append load_tail
same_tail = refl

no_collision : NoCollision hash (bodies (lines_of spaced)) (bodies (lines_of one_line.file))
unfolding append
no_collision x y (inl e) (inl f) h = sym e ∙ f
no_collision x y (inl e) (inr f) h = elim f [ ]
no_collision x y (inr e) f h = elim e [ ]

same_hash_same_log_example : bodies (lines_of spaced) ≡ bodies (lines_of one_line.file)
same_hash_same_log_example =
    same_hash_same_log hash spaced one_line.file 1 verify-spaced verify-one_line same_tail
      no_collision
