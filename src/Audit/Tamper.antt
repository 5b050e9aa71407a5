-- ===== src/Audit/Tamper.antt =====
-- Two audit logs that both verify and end with the same hash
-- (src/polymarket_bot/audit/audit_log.py).
use claude_route.Base.{
  ℕ, suc, ◌≡◌, refl, sym, ap, ◌∙◌, subst, inl, inr, ◌≤◌, true, String, Option, none, some, List, [],
  ◌∷◌, IsIn, ok, arith, eq_iff,
}
use claude_route.Domain.Json.{Json, Fields, get_field}
use claude_route.Audit.{
  Line, blank, entry, garbled, genesis_hash, drop_field, is_text, lines_of, load_tail,
  verify_audit_log,
}
use claude_route.Audit.Chain.{Chain, ok_inj, verify_audit_log-Chain}
use claude_route.Audit.Append.{load_tail-Chain}

-- The bodies of the records of a file, in their order.
abbrev pub bodies : List Line → List Fields
bodies [] = []
bodies (blank ∷ ls) = bodies ls
bodies (entry r ∷ ls) = drop_field "hash" r ∷ bodies ls
bodies (garbled ∷ ls) = bodies ls

-- No record of the one list has the hash of a different record of the other.
abbrev pub NoCollision : (Fields → String) → List Fields → List Fields → Type 0
NoCollision hash xs ys = (x y : Fields) → IsIn x xs → IsIn y ys → hash x ≡ hash y → x ≡ y

is_text_unique : (s t : String) (v : Option Json) → is_text s v ≡ true → is_text t v ≡ true → s ≡ t
is_text_unique s t none g h = ground arith
is_text_unique s t (some (Json.text u)) g h = ground (arith, eq_iff u s, eq_iff u t)
is_text_unique s t (some _) g h = ground arith

module _ (hash : Fields → String) where
  grows : (p : String) (n : ℕ) (ls : List Line) (q : String) (m : ℕ) → Chain hash p n ls q m → n ≤ m
  grows p n [] q m h = omega (arith, h.1)
  grows p n (blank ∷ ls) q m h = grows p n ls q m h
  grows p n (entry r ∷ ls) q m h =
      omega (arith, grows (hash (drop_field "hash" r)) (suc n) ls q m h.1)
  grows p n (garbled ∷ ls) q m h = elim h [ ]

  -- Read backwards from the hash that both end with, each step fixes one record.
  same_end_same_bodies :
      (p p' : String) (n : ℕ) (xs ys : List Line) (q : String) (m : ℕ)
      → NoCollision hash (bodies xs) (bodies ys)
      → Chain hash p n xs q m
      → Chain hash p' n ys q m
      → (p ≡ p') × (bodies xs ≡ bodies ys)
  same_end_same_bodies p p' n [] [] q m c h k = (cc, refl)
  same_end_same_bodies p p' n xs (blank ∷ ys) q m c h k =
      same_end_same_bodies p p' n xs ys q m c h k
  same_end_same_bodies p p' n (blank ∷ xs) [] q m c h k =
      same_end_same_bodies p p' n xs [] q m c h k
  same_end_same_bodies p p' n (blank ∷ xs) (entry y ∷ ys) q m c h k =
      same_end_same_bodies p p' n xs (entry y ∷ ys) q m c h k
  same_end_same_bodies p p' n xs (garbled ∷ ys) q m c h k = elim k [ ]
  same_end_same_bodies p p' n (garbled ∷ xs) [] q m c h k = elim h [ ]
  same_end_same_bodies p p' n (garbled ∷ xs) (entry y ∷ ys) q m c h k = elim h [ ]
  same_end_same_bodies p p' n [] (entry y ∷ ys) q m c h k =
      ground (arith, grows (hash (drop_field "hash" y)) (suc n) ys q m k.1, h.1)
  same_end_same_bodies p p' n (entry x ∷ xs) [] q m c h k =
      ground (arith, grows (hash (drop_field "hash" x)) (suc n) xs q m h.1, k.1)
  same_end_same_bodies p p' n (entry x ∷ xs) (entry y ∷ ys) q m c ((link, _, _), h)
        ((link', _, _), k) =
      let (hashes, rest) =
        same_end_same_bodies (hash (drop_field "hash" x)) (hash (drop_field "hash" y)) (suc n) xs ys
          q m (λ a b i j. c a b (inr i) (inr j)) h k in
      let same = c (drop_field "hash" x) (drop_field "hash" y) (inl refl) (inl refl) hashes in
      (is_text_unique p p' (get_field "prev_hash" (drop_field "hash" x)) link (rw same link'), cc)

  -- Two audit logs with n good records each that end with the same hash hold the same records, in
  -- the same order, unless two different records have one hash: with the last hash kept apart, an
  -- edit, a deletion or a reordering of a file that still verifies shows.
  pub same_hash_same_log :
      (file file' : Option (List Line)) (n : ℕ)
      → verify_audit_log hash file ≡ ok n
      → verify_audit_log hash file' ≡ ok n
      → load_tail file ≡ load_tail file'
      → NoCollision hash (bodies (lines_of file)) (bodies (lines_of file'))
      → bodies (lines_of file) ≡ bodies (lines_of file')
  same_hash_same_log file file' n h h' e c =
      let (q, chain) = (verify_audit_log-Chain hash file n).0 h in
      let (q', chain') = (verify_audit_log-Chain hash file' n).0 h' in
      let same =
        ap (λ (t : ℕ × String). t.1)
          (ok_inj (
            sym (load_tail-Chain hash file q n chain)
            ∙ e
            ∙ load_tail-Chain hash file' q' n chain')) in
      (same_end_same_bodies genesis_hash genesis_hash 1 (lines_of file) (lines_of file') q (suc n) c
        chain
        (subst (λ x. Chain hash genesis_hash 1 (lines_of file') x (suc n)) (sym same) chain')).1
