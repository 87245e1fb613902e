-- ===== src/Audit/Unhashed.antt =====
-- The columns that no hash covers.
use grantlayer.Prelude.{
  ℕ, ◌+◌, String, ◌≡◌, refl, Option, none, List, [], ◌∷◌, map, sort_by-map, select-map, length-map,
}
use grantlayer.Platform.{Platform}
use grantlayer.Models.{AuditEvent}
use grantlayer.Audit.{
  compute_row_hash, sorted_payload, verify_audit_hash_chain, verify_rows, verify_single_event,
  check_prev, check_row, chain_rows, fetch_all_audit_events_ordered, is_chained, row_before,
}

-- The row with other values in the columns that the hash leaves out.
abbrev pub edited :
    (workspace : AuditEvent → String) (scope reason_code violation : AuditEvent → Option String)
    → AuditEvent
    → AuditEvent
edited workspace scope reason_code violation row = record row {
  workspace_id = workspace row;
  scope = scope row;
  reason_code = reason_code row;
  constraint_violation = violation row;
}

module _ (workspace : AuditEvent → String)
    (scope reason_code violation : AuditEvent → Option String) where
  abbrev edit : AuditEvent → AuditEvent
  edit = edited workspace scope reason_code violation

  edit-rows :
      (py : Platform) (prev : Option String) (i : ℕ) (rows : List AuditEvent)
      → verify_rows py prev i (map edit rows) ≡ verify_rows py prev i rows
  unfolding verify_rows verify_single_event check_prev check_row compute_row_hash sorted_payload
  edit-rows py prev i [] = refl
  edit-rows py prev i (row ∷ rows) = rw (edit-rows py row.row_hash (i + 1) rows)

  edit-ordered :
      (rows : List AuditEvent)
      → fetch_all_audit_events_ordered (map edit rows)
        ≡ map edit (fetch_all_audit_events_ordered rows)
  unfolding fetch_all_audit_events_ordered row_before
  edit-ordered rows = sort_by-map edit row_before (λ a b. refl) rows

  edit-chain : (rows : List AuditEvent) → chain_rows (map edit rows) ≡ map edit (chain_rows rows)
  unfolding chain_rows is_chained
  edit-chain rows = select-map edit is_chained (λ a. refl) rows

  -- The verification says the same of a table whose workspace, scope, reason code and constraint
  -- violation columns were rewritten, in any rows and to any values.
  pub verify-edited :
      (py : Platform) (table : List AuditEvent)
      → verify_audit_hash_chain py (map edit table) ≡ verify_audit_hash_chain py table
  unfolding verify_audit_hash_chain
  verify-edited py table =
      let rows = chain_rows (fetch_all_audit_events_ordered table) in
      rw (
        edit-ordered table,
        edit-chain (fetch_all_audit_events_ordered table),
        edit-rows py none 0 rows,
        length-map edit rows,
      )
