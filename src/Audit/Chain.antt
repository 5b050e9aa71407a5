-- ===== src/Audit/Chain.antt =====
-- The hash chain of the audit log (src/polymarket_bot/audit/audit_log.py), described without the
-- loop that checks it: each record names the hash of the one before, and carries its own.
use claude_route.Base.{
  ℕ, suc, ◌+◌, ◌≡◌, refl, ap, subst, String, true, false, Option, none, some, List, [], ◌∷◌, ◌↔◌,
  str_eq, eq_iff, Result, ok, ◌>>=◌, bind_ok, arith,
}
use claude_route.Base.Int.{ℤ}
use claude_route.Domain.Json.{Json, Fields, get_field}
use claude_route.Audit.{
  Line, blank, entry, garbled, Scan, genesis_hash, drop_field, is_text, is_int, lines_of, last_line,
  read_tail, to_int, to_str, check_record, scan, verify_audit_log,
}

pub ok_inj : {E A : Type 0} {a b : A} → ◌≡◌ {A = Result E A} (ok a) (ok b) → a ≡ b
ok_inj h = cc

module _ (hash : Fields → String) where
  -- A record in its place: behind the hash `prev`, with the number `n`.
  abbrev pub IsLink : String → ℕ → Fields → Type 0
  IsLink prev n r =
      (is_text prev (get_field "prev_hash" (drop_field "hash" r)) ≡ true)
      × (is_int n (get_field "seq" (drop_field "hash" r)) ≡ true)
      × (is_text (hash (drop_field "hash" r)) (get_field "hash" r) ≡ true)

  -- `Chain p n ls q m`: the lines continue the hash p and the number n up to q and m.
  abbrev pub Chain : String → ℕ → List Line → String → ℕ → Type 0
  Chain p n [] q m = (p ≡ q) × (n ≡ m)
  Chain p n (blank ∷ ls) q m = Chain p n ls q m
  Chain p n (entry r ∷ ls) q m = IsLink p n r × Chain (hash (drop_field "hash" r)) (suc n) ls q m
  Chain p n (garbled ∷ ls) q m = ⊥

  -- What the loop keeps behind a record that is in its place.
  abbrev after : Scan → Fields → Scan
  after s r = record {
    lineno = suc s.lineno;
    prev = hash (drop_field "hash" r);
    expected_seq = suc s.expected_seq;
    count = suc s.count;
  }

  check_record-IsLink :
      (s t : Scan) (r : Fields)
      → check_record hash s r ≡ ok t
      → IsLink s.prev s.expected_seq r
        × (t.prev ≡ hash (drop_field "hash" r))
        × (t.expected_seq ≡ suc s.expected_seq)
        × (t.count ≡ suc s.count)
  unfolding check_record
  check_record-IsLink s t r h = ground arith

  IsLink-check_record :
      (s : Scan) (r : Fields)
      → IsLink s.prev s.expected_seq r
      → check_record hash s r ≡ ok (after s r)
  unfolding check_record
  IsLink-check_record s r h = simp (h.0, h.1, h.2)

  Chain-transport :
      (ls : List Line) (q : String) (m : ℕ) {p p' : String} {n n' : ℕ}
      → p ≡ p'
      → n ≡ n'
      → Chain p n ls q m
      → Chain p' n' ls q m
  Chain-transport ls q m {p} {p'} {n} {n'} e f h =
      subst (λ x. Chain x n' ls q m) e (subst (λ x. Chain p x ls q m) f h)

  scan-Chain :
      (s t : Scan) (ls : List Line)
      → scan hash s ls ≡ ok t
      → Chain s.prev s.expected_seq ls t.prev t.expected_seq
        × (t.count + s.expected_seq ≡ t.expected_seq + s.count)
  scan-Chain s t [] h = ground arith
  scan-Chain s t (blank ∷ ls) h = scan-Chain (record s { lineno = suc s.lineno }) t ls h
  scan-Chain s t (entry r ∷ ls) h =
      let (u, first, others) = bind_ok (check_record hash s r) (λ u. scan hash u ls) h in
      let (link, prev, seq, count) = check_record-IsLink s u r first in
      let (chain, numbers) = scan-Chain u t ls others in
      (
        (link, Chain-transport ls t.prev t.expected_seq prev seq chain),
        omega (arith, seq, count, numbers),
      )
  scan-Chain s t (garbled ∷ ls) h = cc

  Chain-scan :
      (s : Scan) (ls : List Line) (q : String) (m : ℕ)
      → Chain s.prev s.expected_seq ls q m
      → (t : Scan) × (scan hash s ls ≡ ok t)
        × (t.prev ≡ q)
        × (t.expected_seq ≡ m)
        × (t.count + s.expected_seq ≡ m + s.count)
  Chain-scan s [] q m h = (s, refl, h.0, h.1, omega (arith, h.1))
  Chain-scan s (blank ∷ ls) q m h = Chain-scan (record s { lineno = suc s.lineno }) ls q m h
  Chain-scan s (entry r ∷ ls) q m (link, chain) =
      let (t, e, last, end, numbers) = Chain-scan (after s r) ls q m chain in
      (t, rw (IsLink-check_record s r link) e, last, end, omega (arith, numbers))
  Chain-scan s (garbled ∷ ls) q m h = elim h [ ]

  abbrev start : Scan
  start = record { lineno = 1; prev = genesis_hash; expected_seq = 1; count = 0 }

  scan_count :
      (ls : List Line) (n : ℕ)
      → ((scan hash start ls >>= λ s. ok s.count) ≡ ok n)
        ↔ ((q : String) × Chain genesis_hash 1 ls q (suc n))
  scan_count ls n = (
    λ h.
        let (t, e, k) = bind_ok (scan hash start ls) (λ s. ok s.count) h in
        let (chain, numbers) = scan-Chain start t ls e in
        (
          t.prev,
          subst (λ m. Chain genesis_hash 1 ls t.prev m) (omega (arith, numbers, ok_inj k)) chain,
        ),
    λ h.
        let (t, e, last, end, numbers) = Chain-scan start ls h.0 (suc n) h.1 in
        rw e (ap ok (omega (arith, numbers))),
  )

  -- `verify_audit_log` finds n good records exactly when the file is a hash chain of n records
  -- from the genesis hash.
  pub verify_audit_log-Chain :
      (file : Option (List Line)) (n : ℕ)
      → (verify_audit_log hash file ≡ ok n)
        ↔ ((q : String) × Chain genesis_hash 1 (lines_of file) q (suc n))
  unfolding verify_audit_log
  verify_audit_log-Chain none n =
      (λ h. (genesis_hash, (refl, ap suc (ok_inj h))), λ h. ap ok (omega (arith, h.1.1)))
  verify_audit_log-Chain (some ls) n = scan_count ls n

  get-drop_field :
      (k j : String) (r : Fields)
      → str_eq j k ≡ false
      → get_field k (drop_field j r) ≡ get_field k r
  get-drop_field k j Fields.end h = refl
  get-drop_field k j (Fields.field i v r) h =
      ground (arith, get-drop_field k j r, eq_iff j k, eq_iff i j, eq_iff i k)

  is_int-to_int : (n : ℕ) (v : Option Json) → is_int n v ≡ true → to_int v ≡ ok n
  is_int-to_int n none h = ground arith
  is_int-to_int n (some (Json.number (ℤ.pos m))) h = ground arith
  is_int-to_int n (some (Json.bool b)) h = ground arith
  is_int-to_int n (some _) h = ground arith

  is_text-to_str : (s : String) (v : Option Json) → is_text s v ≡ true → to_str v ≡ ok s
  is_text-to_str s none h = ground arith
  is_text-to_str s (some (Json.text t)) h = ground (arith, eq_iff t s)
  is_text-to_str s (some _) h = ground arith

  read_tail-IsLink :
      (p : String) (n : ℕ) (r : Fields)
      → IsLink p n r
      → read_tail (some (entry r)) ≡ ok (n, hash (drop_field "hash" r))
  read_tail-IsLink p n r (a, b, c) =
      rw (is_int-to_int n (get_field "seq" r) (rw (← (get-drop_field "seq" "hash" r refl)) b))
        (rw (is_text-to_str (hash (drop_field "hash" r)) (get_field "hash" r) c) refl)

  -- The last line that is not blank holds the number and the hash that the chain ends with.
  pub last_line-Chain :
      (acc : Option Line) (p : String) (n : ℕ) (ls : List Line) (q : String) (m : ℕ)
      → read_tail acc ≡ ok (n, p)
      → Chain p (suc n) ls q (suc m)
      → read_tail (last_line acc ls) ≡ ok (m, q)
  last_line-Chain acc p n [] q m e h = rw e (ap ok (cc))
  last_line-Chain acc p n (blank ∷ ls) q m e h = last_line-Chain acc p n ls q m e h
  last_line-Chain acc p n (entry r ∷ ls) q m e (link, chain) =
      last_line-Chain (some (entry r)) (hash (drop_field "hash" r)) (suc n) ls q m
        (read_tail-IsLink p (suc n) r link) chain
  last_line-Chain acc p n (garbled ∷ ls) q m e h = elim h [ ]
