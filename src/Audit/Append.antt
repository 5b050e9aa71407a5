-- ===== src/Audit/Append.antt =====
-- What `append` adds to the chain of the audit log (src/polymarket_bot/audit/audit_log.py), and
-- how a restart picks it up.
use claude_route.Base.{
  ℕ, suc, ◌≡◌, refl, ap, sym, subst, Bool, true, String, Option, none, some, List, [], ◌∷◌, ◌++◌,
  ==_iff, ok, arith,
}
use text.Mathlib.TextPositions.{eq_refl}
use claude_route.Domain.Json.{Json, Fields}
use claude_route.Audit.{
  Line, blank, entry, garbled, AuditLog, genesis_hash, drop_field, lines_of, write_line, load_tail,
  open_log, append, body_of, redact_fields, verify_audit_log,
}
use claude_route.Audit.Chain.{IsLink, Chain, ok_inj, last_line-Chain, verify_audit_log-Chain}

module _ (hash : Fields → String) where
  Chain-append :
      (p : String) (n : ℕ) (ls : List Line) (q : String) (m : ℕ) (r : Fields)
      → Chain hash p n ls q m
      → IsLink hash q m r
      → Chain hash p n (ls ++ entry r ∷ []) (hash (drop_field "hash" r)) (suc m)
  Chain-append p n [] q m r (e, f) link = (rw (e, f) link, (refl, ap suc f))
  Chain-append p n (blank ∷ ls) q m r h link = Chain-append p n ls q m r h link
  Chain-append p n (entry s ∷ ls) q m r (first, h) link =
      (first, Chain-append (hash (drop_field "hash" s)) (suc n) ls q m r h link)
  Chain-append p n (garbled ∷ ls) q m r h link = elim h [ ]

  pub load_tail-Chain :
      (file : Option (List Line)) (q : String) (m : ℕ)
      → Chain hash genesis_hash 1 (lines_of file) q (suc m)
      → load_tail file ≡ ok (m, q)
  unfolding load_tail
  load_tail-Chain none q m h = ap ok (cc)
  load_tail-Chain (some ls) q m h = last_line-Chain hash none genesis_hash 0 ls q m refl h

  opened_prev :
      (file : Option (List Line)) (n : ℕ) (q : String)
      → load_tail file ≡ ok (n, q)
      → (ended : Bool) → (log : AuditLog) → open_log file ended ≡ ok log
      → q ≡ log.prev
  unfolding open_log
  opened_prev file n q e ended log h = ap (λ (l : AuditLog). l.prev) (ok_inj (rw e at h))

  -- A log whose file verifies and ends with a newline, opened with the number of its records, still
  -- verifies after `append`, with one record more, and again ends with a newline; opening the file
  -- again gives the log that `append` leaves.
  pub append-verify_audit_log :
      (redact : String → String) (now : ℕ) (kind : String) (payload : Fields) (log : AuditLog)
      → open_log log.file log.ended ≡ ok log
      → log.ended ≡ true
      → verify_audit_log hash log.file ≡ ok log.seq
      → let log' = append hash redact now kind payload log in
        (verify_audit_log hash log'.file ≡ ok (suc log.seq))
        × (log'.ended ≡ true)
        × (open_log log'.file log'.ended ≡ ok log')
  unfolding append open_log
  append-verify_audit_log redact now kind payload log opened ended verified =
      let log' = append hash redact now kind payload log in
      let (q, chain) = (verify_audit_log-Chain hash log.file log.seq).0 verified in
      let loaded = load_tail-Chain log.file q log.seq chain in
      let last = opened_prev log.file log.seq q loaded log.ended log opened in
      let link =
        Chain-append genesis_hash 1 (lines_of log.file) q (suc log.seq)
          (Fields.field "hash" (Json.text log'.prev)
            (body_of now kind (redact_fields redact payload) (suc log.seq) log.prev))
          chain
          (
            ground (arith, last, eq_refl log.prev),
            (==_iff (suc log.seq) (suc log.seq)).1 refl,
            eq_refl log'.prev,
          ) in
      let record_of =
        Fields.field "hash" (Json.text log'.prev)
          (body_of now kind (redact_fields redact payload) (suc log.seq) log.prev) in
      let link' : Chain hash genesis_hash 1 (lines_of log'.file) log'.prev (suc (suc log.seq)) =
        subst
          (λ b.
            Chain hash genesis_hash 1 (write_line b (lines_of log.file) record_of) log'.prev
              (suc (suc log.seq)))
          (sym ended) link in
      (
        (verify_audit_log-Chain hash log'.file (suc log.seq)).1 (log'.prev, link'),
        refl,
        rw (load_tail-Chain log'.file log'.prev (suc log.seq) link') refl,
      )
