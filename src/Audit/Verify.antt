-- ===== src/Audit/Verify.antt =====
-- What the verification accepts: the rows, in the order of their numbers, form a chain.
use grantlayer.Prelude.{
  ℕ, ◌+◌, String, ◌≡◌, refl, ◌↔◌, true, Option, none, some, List, [], ◌∷◌, ◌++◌, arith, opt_eq,
  opt_eq→eq, opt_eq_refl,
}
use grantlayer.Platform.{Platform}
use grantlayer.Models.{AuditEvent}
use grantlayer.Audit.{
  Failure, is_nil, compute_row_hash, check_prev, check_row, verify_single_event, verify_rows,
  verify_audit_hash_chain, chain_rows, fetch_all_audit_events_ordered,
}

-- Each row names the hash of the one before it, and carries its own hash over that.
abbrev pub IsLinked : Platform → Option String → List AuditEvent → Type 0
IsLinked py prev [] = Unit
IsLinked py prev (row ∷ rows) =
    (row.prev_hash ≡ prev)
    × (row.row_hash ≡ some (compute_row_hash py row prev))
    × IsLinked py row.row_hash rows

opt_eq_iff : (a b : Option String) → (opt_eq a b ≡ true) ↔ (a ≡ b)
opt_eq_iff a b = (opt_eq→eq a b, λ e. rw e (opt_eq_refl b))

append_nil_iff : (xs ys : List Failure) → (xs ++ ys ≡ []) ↔ ((xs ≡ []) × (ys ≡ []))
append_nil_iff [] ys = (λ h. (refl, h), λ h. h.1)
append_nil_iff (x ∷ xs) ys = (λ h. cc, λ h. cc)

module _ (py : Platform) where
  check_prev_iff :
      (row : AuditEvent) (expected : Option String) (i : ℕ)
      → (check_prev py row expected i ≡ []) ↔ (row.prev_hash ≡ expected)
  unfolding check_prev
  check_prev_iff row expected i = ground (arith, opt_eq_iff row.prev_hash expected)

  check_row_iff :
      (row : AuditEvent) (expected : Option String) (i : ℕ)
      → (check_row py row expected i ≡ [])
        ↔ (row.row_hash ≡ some (compute_row_hash py row expected))
  unfolding check_row
  check_row_iff row expected i =
      ground (arith, opt_eq_iff row.row_hash (some (compute_row_hash py row expected)))

  pub verify_rows_iff :
      (prev : Option String) (i : ℕ) (rows : List AuditEvent)
      → (verify_rows py prev i rows ≡ []) ↔ IsLinked py prev rows
  unfolding verify_rows verify_single_event
  verify_rows_iff prev i [] = (λ h. tt, λ h. refl)
  verify_rows_iff prev i (row ∷ rows) =
      let rest = verify_rows py row.row_hash (i + 1) rows in
      let outer = append_nil_iff (check_prev py row prev i ++ check_row py row prev i) rest in
      let inner = append_nil_iff (check_prev py row prev i) (check_row py row prev i) in
      let a = check_prev_iff row prev i in
      let b = check_row_iff row prev i in
      let c = verify_rows_iff row.row_hash (i + 1) rows in
      (
        λ h. (a.0 (inner.0 (outer.0 h).0).0, b.0 (inner.0 (outer.0 h).0).1, c.0 (outer.0 h).1),
        λ h. outer.1 (inner.1 (a.1 h.0, b.1 h.1), c.1 h.2),
      )

  is_nil_iff : (fs : List Failure) → (is_nil fs ≡ true) ↔ (fs ≡ [])
  is_nil_iff [] = (λ h. refl, λ h. refl)
  is_nil_iff (f ∷ fs) = (λ h. cc, λ h. cc)

  -- The verification of a table says "valid" exactly when its rows that carry a hash, taken in the
  -- order of their numbers, form a chain from no hash: each names the hash of the one before it and
  -- carries its own over that.
  pub verify_audit_hash_chain-IsLinked :
      (table : List AuditEvent)
      → ((verify_audit_hash_chain py table).valid ≡ true)
        ↔ IsLinked py none (chain_rows (fetch_all_audit_events_ordered table))
  unfolding verify_audit_hash_chain
  verify_audit_hash_chain-IsLinked table =
      let rows = chain_rows (fetch_all_audit_events_ordered table) in
      let a = is_nil_iff (verify_rows py none 0 rows) in
      let b = verify_rows_iff none 0 rows in (λ h. b.0 (a.0 h), λ h. a.1 (b.1 h))
