-- ===== src/Audit.antt =====
-- The audit log (backend/src/audit/audit_log.py): the hash chain over `audit_events`, its append
-- and its verification. The table is the list of its rows in the order of insertion. No row has an
-- empty challenge_result or grant_signature_result, which the reading of older rows replaces.
pub mod Verify
pub mod Append
pub mod Runs
pub mod Tamper
pub mod Unhashed
pub mod Fork
pub mod Report
use grantlayer.Prelude.{
  ℕ, zero, ◌+◌, String, Bool, true, false, ◌&&◌, ◌||◌, Option, none, some, List, [], ◌∷◌, ◌++◌,
  ◌==◌, before, ltb, leb, opt_eq, is_some, select, sort_by, length, if◌then◌else◌,
}
use grantlayer.Platform.{Platform, Json, null, boolean, text}
use grantlayer.Models.{AuditEvent}

-- `MAX(seq)`-style order of two numbers that may be NULL, which stands below every number.
unfoldable pub seq_below : Option ℕ → Option ℕ → Bool
seq_below m none = false
seq_below none (some n) = true
seq_below (some m) (some n) = ltb m n

-- The second row comes first in `ORDER BY timestamp DESC, seq DESC`.
unfoldable pub is_later : AuditEvent → AuditEvent → Bool
unfolding seq_below
is_later a b =
    before a.timestamp b.timestamp || (a.timestamp == b.timestamp && seq_below a.seq b.seq)

-- The first row of that order, from a first candidate.
unfoldable pub latest_from : AuditEvent → List AuditEvent → AuditEvent
latest_from best [] = best
latest_from best (row ∷ rows) = latest_from (if is_later best row then row else best) rows

unfoldable pub is_chained : AuditEvent → Bool
is_chained row = is_some row.row_hash

unfoldable pub chain_rows : List AuditEvent → List AuditEvent
unfolding is_chained
chain_rows = select is_chained

unfoldable pub latest_hash : List AuditEvent → Option String
latest_hash [] = none
latest_hash (row ∷ rows) = (latest_from row rows).row_hash

-- `_get_latest_row_hash`: among the rows that have a hash
unfoldable pub get_latest_row_hash : List AuditEvent → Option String
unfolding latest_hash chain_rows
get_latest_row_hash rows = latest_hash (chain_rows rows)

-- A text that may be None, as a JSON value.
abbrev pub nullable : Option String → Json
nullable none = null
nullable (some s) = text s

unfoldable pub tenant_entry : Option String → List (String × Json)
tenant_entry none = []
tenant_entry (some t) = ("tenant_id", text t) ∷ []

-- The dictionary that `_hash_payload` builds.
unfoldable pub payload : AuditEvent → Option String → List (String × Json)
payload event prev_hash =
    ("id", text event.id)
    ∷ ("timestamp", text event.timestamp)
    ∷ ("subject_id", text event.subject_id)
    ∷ ("role", text event.role)
    ∷ ("action", text event.action)
    ∷ ("resource", text event.resource)
    ∷ ("approved", boolean event.approved)
    ∷ ("reason", text event.reason)
    ∷ ("matched_grant_id", nullable event.matched_grant_id)
    ∷ ("challenge_id", nullable event.challenge_id)
    ∷ ("challenge_present", boolean event.challenge_present)
    ∷ ("challenge_result", text event.challenge_result)
    ∷ ("grant_signature_result", text event.grant_signature_result)
    ∷ ("prev_hash", nullable prev_hash)
    ∷ tenant_entry event.tenant_id

-- `sort_keys=True`
unfoldable pub sorted_payload : AuditEvent → Option String → List (String × Json)
unfolding payload tenant_entry
sorted_payload event prev_hash = sort_by (λ a b. before a.0 b.0) (payload event prev_hash)

-- The order of `_fetch_all_audit_events_ordered`: NULL numbers last, then by number, then by id.
unfoldable pub order_by_seq : Option ℕ → Option ℕ → Bool → Bool
order_by_seq none none tie = tie
order_by_seq none (some n) tie = false
order_by_seq (some m) none tie = true
order_by_seq (some m) (some n) tie = ltb m n || (leb m n && (leb n m && tie))

unfoldable pub row_before : AuditEvent → AuditEvent → Bool
unfolding order_by_seq
row_before a b = order_by_seq a.seq b.seq (before a.id b.id)

unfoldable pub fetch_all_audit_events_ordered : List AuditEvent → List AuditEvent
unfolding row_before
fetch_all_audit_events_ordered rows = sort_by row_before rows

-- The two messages of `_verify_single_event`, with what they quote: stored, then expected.
pub data Reason : Type 0 where
  prev_hash_mismatch : Option String → Option String → Reason
  row_hash_mismatch : Option String → Option String → Reason

pub record Failure : Type 0 where
  pub event_id : String
  pub index : ℕ
  pub reason : Reason

pub record VerifyResult : Type 0 where
  pub valid : Bool
  pub checked : ℕ
  pub failures : List Failure

abbrev pub is_nil {ℓ} : {A : Type ℓ} → List A → Bool
is_nil [] = true
is_nil (x ∷ xs) = false

-- `(max_seq or 0) + 1`, of the number that `SELECT MAX(seq)` gives
unfoldable pub max_seq : List AuditEvent → Option ℕ
max_seq [] = none
max_seq (row ∷ rows) = let m = max_seq rows in if seq_below m row.seq then row.seq else m

abbrev or_zero : Option ℕ → ℕ
or_zero none = 0
or_zero (some n) = n

unfoldable pub get_next_seq_sqlite : List AuditEvent → ℕ
unfolding max_seq
get_next_seq_sqlite rows = or_zero (max_seq rows) + 1

module _ (py : Platform) where
  unfoldable pub compute_row_hash : AuditEvent → Option String → String
  compute_row_hash event prev_hash = py.sha256 (py.dumps (sorted_payload event prev_hash))

  -- The row that an append inserts, with its number.
  unfoldable pub linked : AuditEvent → Option String → ℕ → AuditEvent
  linked event prev_hash seq = record event {
    row_hash = some (compute_row_hash event prev_hash);
    prev_hash = prev_hash;
    seq = some seq;
  }

  -- PostgreSQL: the sequence of the table gives the number.
  unfoldable pub append_event_postgres : ℕ → AuditEvent → List AuditEvent → List AuditEvent
  unfolding linked
  append_event_postgres nextval event rows =
      rows ++ linked event (get_latest_row_hash rows) nextval ∷ []

  -- SQLite: the next number is computed under the write lock.
  unfoldable pub append_event_sqlite : AuditEvent → List AuditEvent → List AuditEvent
  unfolding linked
  append_event_sqlite event rows =
      rows ++ linked event (get_latest_row_hash rows) (get_next_seq_sqlite rows) ∷ []

  unfoldable pub check_prev : AuditEvent → Option String → ℕ → List Failure
  check_prev event expected index =
      if opt_eq event.prev_hash expected
      then []
      else record {
        event_id = event.id;
        index = index;
        reason = prev_hash_mismatch event.prev_hash expected;
      }
        ∷ []

  unfoldable pub check_row : AuditEvent → Option String → ℕ → List Failure
  check_row event expected index =
      let recomputed = some (compute_row_hash event expected) in
      if opt_eq event.row_hash recomputed
      then []
      else record {
        event_id = event.id;
        index = index;
        reason = row_hash_mismatch event.row_hash recomputed;
      }
        ∷ []

  unfoldable pub verify_single_event : AuditEvent → Option String → ℕ → List Failure
  unfolding check_prev check_row
  verify_single_event event expected index =
      check_prev event expected index ++ check_row event expected index

  -- The loop over the chain rows, with the hash that the next one has to name.
  unfoldable pub verify_rows : Option String → ℕ → List AuditEvent → List Failure
  verify_rows expected index [] = []
  verify_rows expected index (row ∷ rows) =
      verify_single_event row expected index ++ verify_rows row.row_hash (index + 1) rows

  unfoldable pub verify_audit_hash_chain : List AuditEvent → VerifyResult
  unfolding verify_rows verify_single_event
  verify_audit_hash_chain table =
      let rows = chain_rows (fetch_all_audit_events_ordered table) in
      let failures = verify_rows none 0 rows in
      record { valid = is_nil failures; checked = length rows; failures = failures }
