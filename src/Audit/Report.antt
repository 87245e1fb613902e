-- ===== src/Audit/Report.antt =====
-- The reads of the audit log (backend/src/audit/audit_log.py): lists, counts, and the report on the
-- verification.
use grantlayer.Prelude.{
  ℕ, zero, suc, ◌-◌, String, ◌≡◌, refl, ◌↔◌, eq_iff, Bool, true, false, not, ◌&&◌, Option, none,
  some, List, [], ◌∷◌, ◌++◌, ◌==◌, before, ltb, opt_eq, select, sort_by, length, page, first_where,
  concat, if◌then◌else◌, All, All-sort_by, All-select, page-All, Bool-cases, inl, inr,
}
use grantlayer.Prelude.Int.{str_ℕ}
use grantlayer.Platform.{Platform}
use grantlayer.Models.{AuditEvent}
use grantlayer.Audit.Verify.{IsLinked, verify_audit_hash_chain-IsLinked}
use grantlayer.Audit.{
  is_later, chain_rows, fetch_all_audit_events_ordered, prev_hash_mismatch, row_hash_mismatch,
  Failure, verify_audit_hash_chain,
}

unfoldable pub get_event : String → List AuditEvent → Option AuditEvent
get_event event_id rows = first_where (λ row. row.id == event_id) rows

abbrev pub matches : Option String → Option String → Bool
matches none value = true
matches (some wanted) value = opt_eq value (some wanted)

-- `seq < ?`, which no row without a number passes.
abbrev pub is_before : Option ℕ → Option ℕ → Bool
is_before none seq = true
is_before (some after_seq) none = false
is_before (some after_seq) (some seq) = ltb seq after_seq

abbrev pub is_listed : Option String → Option String → Option ℕ → AuditEvent → Bool
is_listed tenant_id workspace_id after_seq row =
    matches tenant_id row.tenant_id
    && (matches workspace_id (some row.workspace_id) && is_before after_seq row.seq)

abbrev pub actual_offset : Option ℕ → ℕ → ℕ
actual_offset none offset = offset
actual_offset (some after_seq) offset = 0

unfoldable pub list_events :
    ℕ → Option String → Option String → ℕ → Option ℕ → List AuditEvent → List AuditEvent
list_events limit tenant_id workspace_id offset after_seq rows =
    page (some limit) (actual_offset after_seq offset)
      (sort_by (λ a b. is_later b a) (select (is_listed tenant_id workspace_id after_seq) rows))

unfoldable pub count_events : Option String → Option String → List AuditEvent → ℕ
count_events tenant_id workspace_id rows =
    length (select (is_listed tenant_id workspace_id none) rows)

-- Rows of one timestamp keep the order of the table, which SQL leaves open.
unfoldable pub list_events_by_grant : String → ℕ → List AuditEvent → List AuditEvent
list_events_by_grant grant_id limit rows = page (some limit) 0 (
    sort_by (λ a b. before b.timestamp a.timestamp)
      (select (λ row. opt_eq row.matched_grant_id (some grant_id)) rows))

unfoldable pub build_report_summary : Bool → ℕ → ℕ → ℕ → String × String
build_report_summary true zero zero failure_count =
    ("No chain events to verify; audit log is empty.", "empty")
build_report_summary true zero (suc skipped) failure_count = (
  concat (
      "No chain events to verify; "
      ∷ str_ℕ (suc skipped)
      ∷ " historical/pre-chain row(s) skipped."
      ∷ []),
  "historical_only",
)
build_report_summary true (suc checked) zero failure_count = (
  concat ("Audit chain verified: " ∷ str_ℕ (suc checked) ∷ " event(s) checked, no failures." ∷ []),
  "valid",
)
build_report_summary true (suc checked) (suc skipped) failure_count = (
  concat (
      "Audit chain verified: "
      ∷ str_ℕ (suc checked)
      ∷ " event(s) checked, "
      ∷ str_ℕ (suc skipped)
      ∷ " historical/pre-chain row(s) skipped, no failures."
      ∷ []),
  "valid",
)
build_report_summary false checked skipped failure_count = (
  concat (
      "Audit chain verification failed: "
      ∷ str_ℕ failure_count
      ∷ " failure(s) in "
      ∷ str_ℕ checked
      ∷ " event(s) checked."
      ∷ []),
  "invalid",
)

is_row_mismatch : Failure → Bool
is_row_mismatch failure = elim failure.reason [
  | prev_hash_mismatch a b ↦ false
  | row_hash_mismatch a b ↦ true
]

-- The messages are told apart by their kind; the code looks for their first words in the text.
unfoldable pub build_report_recommendations : Bool → ℕ → List Failure → List String
unfolding is_row_mismatch
build_report_recommendations true zero failures =
    "No action required; no chain events present." ∷ []
build_report_recommendations true (suc checked) failures =
    "No action required; chain integrity is intact." ∷ []
build_report_recommendations false checked failures =
    let row_hash = length (select is_row_mismatch failures) in
    let prev_hash = length (select (λ f. not (is_row_mismatch f)) failures) in
    (if ltb 0 row_hash
      then "Investigate row_hash mismatches: audit event data may have been tampered with." ∷ []
      else [])
    ++ (if ltb 0 prev_hash
        then "Investigate prev_hash mismatches: chain continuity may be broken or events reordered."
          ∷ []
        else [])
    ++ (if not (ltb 0 row_hash) && not (ltb 0 prev_hash)
        then "Investigate verification failures: review audit_events for anomalies." ∷ []
        else [])

pub record Report : Type 0 where
  pub valid : Bool
  pub checked_events : ℕ
  pub failure_count : ℕ
  pub failures : List Failure
  pub summary : String
  pub status : String
  pub recommendations : List String

unfoldable pub build_audit_chain_verification_report : Platform → List AuditEvent → Report
build_audit_chain_verification_report py table =
    let rows = fetch_all_audit_events_ordered table in
    let skipped_events = length rows - length (chain_rows rows) in
    let result = verify_audit_hash_chain py table in
    let failure_count = length result.failures in
    let summary = build_report_summary result.valid result.checked skipped_events failure_count in
    record {
      valid = result.valid;
      checked_events = result.checked;
      failure_count = failure_count;
      failures = result.failures;
      summary = summary.0;
      status = summary.1;
      recommendations = build_report_recommendations result.valid result.checked result.failures;
    }

status_valid :
    (valid : Bool) (checked skipped failure_count : ℕ)
    → ((build_report_summary valid checked skipped failure_count).1 ≡ "invalid") ↔ (valid ≡ false)
unfolding build_report_summary
status_valid false checked skipped n = (λ h. refl, λ h. refl)
status_valid true zero zero n =
    (λ h. absurd (cc ((eq_iff "empty" "invalid").1 h)), λ h. absurd (cc h))
status_valid true zero (suc s) n =
    (λ h. absurd (cc ((eq_iff "historical_only" "invalid").1 h)), λ h. absurd (cc h))
status_valid true (suc c) zero n =
    (λ h. absurd (cc ((eq_iff "valid" "invalid").1 h)), λ h. absurd (cc h))
status_valid true (suc c) (suc s) n =
    (λ h. absurd (cc ((eq_iff "valid" "invalid").1 h)), λ h. absurd (cc h))

-- The report says "invalid" exactly when the rows that carry a hash, in the order of their numbers,
-- do not form a chain.
pub report-IsLinked :
    (py : Platform) (table : List AuditEvent)
    → ((build_audit_chain_verification_report py table).status ≡ "invalid")
      ↔ ¬ IsLinked py none (chain_rows (fetch_all_audit_events_ordered table))
unfolding build_audit_chain_verification_report
report-IsLinked py table =
    let result = verify_audit_hash_chain py table in
    let rows = fetch_all_audit_events_ordered table in
    let status =
      status_valid result.valid result.checked (length rows - length (chain_rows rows))
        (length result.failures) in
    let linked = verify_audit_hash_chain-IsLinked py table in
    (
      λ h chain. cc (status.0 h, linked.1 chain),
      λ broken. elim (Bool-cases result.valid) [
        | inl good ↦ absurd (broken (linked.0 good))
        | inr bad ↦ status.1 bad
      ],
    )

-- A list of events holds only events that pass the tests on tenant, workspace and cursor, whatever
-- the limit and the offset are.
pub list_events-All :
    (limit : ℕ) (tenant_id workspace_id : Option String) (offset : ℕ) (after_seq : Option ℕ)
    (rows : List AuditEvent)
    → All
        (λ row. is_listed tenant_id workspace_id after_seq row ≡ true)
        (list_events limit tenant_id workspace_id offset after_seq rows)
unfolding list_events
list_events-All limit t w offset after rows =
    let P = λ (row : AuditEvent). is_listed t w after row ≡ true in
    let lt = λ (a b : AuditEvent). is_later b a in
    let kept = select (is_listed t w after) rows in
    page-All P (some limit) (actual_offset after offset) (sort_by lt kept)
      ((All-sort_by P lt kept).1 (All-select P (is_listed t w after) (λ row h. h) rows))
