-- ===== src/Requests/Decisions.antt =====
-- The decisions of backend/src/grants/grant_requests.py. A call is one transaction: an exception
-- in it leaves the database as it was, so a call returns the new database or raises. The lookup
-- after the transaction is counted to it.
pub mod Scoped
pub mod Terms
pub mod Approval
pub mod Withdrawal
pub mod Separation
use grantlayer.Prelude.{
  ℕ, suc, String, Bool, true, false, not, Option, none, some, List, [], ◌∷◌, ◌==◌, before, is_empty,
  concat, select, length, if◌then◌else◌,
}
use grantlayer.Result.{Result, ok, err, value_error, ◌>>=◌, ◌>>◌, raise_if}
use grantlayer.Platform.{Platform}
use grantlayer.Models.{Grant, GrantRequest, AuditEvent}
use grantlayer.Validation.{validate_string_length, max_reason_length}
use grantlayer.Audit.{append_event_sqlite}
use grantlayer.Signing.{sign_grant}
use grantlayer.Grants
use grantlayer.Grants.{GrantRow}
use grantlayer.Database.{Database, RequestRow, Moment}
use grantlayer.Requests.{
  or_default, require_tenant, get, update_request, approve, deny, revoke, expire, is_pending,
}

-- The audit event of a decision on a request, before it is appended.
unfoldable pub decision_event :
    Moment → String → String → String → Bool → String → Option String → String → String → AuditEvent
decision_event at subject role action approved reason tenant workspace scope = record {
  subject_id = subject;
  role = role;
  action = action;
  resource = "";
  approved = approved;
  reason = reason;
  workspace_id = workspace;
  matched_grant_id = none;
  challenge_id = none;
  challenge_present = false;
  challenge_result = "legacy_mode";
  grant_signature_result = "not_checked";
  id = at.event_id;
  timestamp = at.now;
  row_hash = none;
  prev_hash = none;
  tenant_id = tenant;
  scope = some scope;
  reason_code = none;
  constraint_violation = none;
  seq = none;
}

unfoldable pub request_event :
    Moment
    → String
    → String
    → String
    → Bool
    → String
    → Option String
    → String
    → String
    → String
    → AuditEvent
unfolding decision_event
request_event at request_id subject role approved reason tenant workspace scope action =
    record (decision_event at subject role action approved reason tenant workspace scope) {
      resource = concat ("grant_request/" ∷ request_id ∷ []);
    }

-- The grant that an approval makes.
unfoldable pub requested_grant : Moment → String → String → GrantRequest → Grant
requested_grant at request_id operator_id request = record {
  subject_id = request.subject_id;
  role = request.role;
  action = request.action;
  resource = request.resource;
  valid_from = request.valid_from;
  valid_until = request.valid_until;
  created_by = operator_id;
  reason = concat ("Approved from request " ∷ request_id ∷ ": " ∷ request.reason ∷ []);
  id = at.grant_id;
  revoked = false;
  revoked_by = none;
  revoked_reason = none;
  revoked_at = none;
  created_at = at.now;
  signature = none;
  signing_key_id = none;
  payload_hash = none;
  max_uses = none;
  use_count = 0;
  constraints = none;
}

-- `phase` ends the message of the second lookup, after the transaction.
unfoldable pub found : String → String → Option GrantRequest → Result GrantRequest
found request_id phase none =
    err (value_error (concat ("Grant request " ∷ request_id ∷ " not found" ∷ phase ∷ [])))
found request_id phase (some request) = ok request

-- The test of the status, with the verb of its message.
unfoldable pub has_status : String → String → String → GrantRequest → Result (Unit {0})
has_status verb request_id wanted request = raise_if (not (request.status == wanted)) (
    value_error (
      concat (
        "Cannot " ∷ verb ∷ " grant request " ∷ request_id ∷ " with status " ∷ request.status ∷ [])))

unfoldable pub workspace_or_system : Option String → String
workspace_or_system none = "__system__"
workspace_or_system (some w) = w

unfoldable pub tenant_scope : Option String → String
tenant_scope none = "system"
tenant_scope (some t) = if is_empty t then "system" else "tenant"

unfoldable pub mark_all_expired : String → List RequestRow → List RequestRow → List RequestRow
mark_all_expired now [] requests = requests
mark_all_expired now (row ∷ rows) requests =
    mark_all_expired now rows (update_request row.request.id (expire now) requests)

-- The grant of a request, where it names one, is revoked in the same transaction; whether a row
-- was hit is not looked at.
unfoldable pub revoke_linked :
    Moment
    → String
    → String
    → String
    → Option String
    → Option String
    → List GrantRow
    → List GrantRow
revoke_linked at operator_id reason tenant none workspace_id grants = grants
revoke_linked at operator_id reason tenant (some grant_id) workspace_id grants =
    if is_empty grant_id
    then grants
    else (Grants.revoke at.now grant_id operator_id
        (concat ("Revoked from request: " ∷ reason ∷ [])) (some tenant) workspace_id grants).1

module _ (py : Platform) where
  -- What the transaction of an approval writes, once the request has passed the tests.
  unfoldable pub write_approval :
      Moment
      → String
      → String
      → String
      → String
      → GrantRequest
      → Database
      → Result (GrantRequest × Grant × Database)
  write_approval at request_id operator_id tenant workspace request db = do
    grant ← sign_grant py (requested_grant at request_id operator_id request)
    grants ← Grants.create grant tenant workspace db.grants
    let requests = update_request request_id (approve operator_id grant.id at.now) db.requests
    let event =
        request_event at request_id operator_id "operator" true
          (concat ("Grant request " ∷ request_id ∷ " approved" ∷ [])) (some tenant) workspace
          "tenant" "approve_grant_request"
    let db' = record db {
      grants = grants;
      requests = requests;
      audit_events = append_event_sqlite py event db.audit_events;
    }
    updated ← found request_id " after approval" (get request_id none none requests)
    ok (updated, grant, db')

  unfoldable pub approve_grant_request :
      Moment
      → String
      → String
      → Option String
      → Option String
      → Database
      → Result (GrantRequest × Grant × Database)
  unfolding write_approval
  approve_grant_request at request_id operator_id tenant_id workspace_id db = do
    tenant ← require_tenant tenant_id
    request ← found request_id "" (get request_id (some tenant) workspace_id db.requests)
    has_status "approve" request_id "requested" request
    raise_if (before request.created_at at.day_ago) (value_error "Grant request has expired")
    raise_if (request.requested_by == operator_id) (value_error "Self-approval is not permitted")
    write_approval at request_id operator_id tenant (or_default workspace_id) request db

  unfoldable pub deny_grant_request :
      Moment
      → String
      → String
      → String
      → Option String
      → Option String
      → Database
      → Result (GrantRequest × Database)
  deny_grant_request at request_id operator_id reason tenant_id workspace_id db = do
    tenant ← require_tenant tenant_id
    validate_string_length reason "reason" max_reason_length
    request ← found request_id "" (get request_id (some tenant) workspace_id db.requests)
    has_status "deny" request_id "requested" request
    let requests = update_request request_id (deny operator_id reason at.now) db.requests
    let event =
        request_event at request_id operator_id "operator" false
          (concat ("Grant request " ∷ request_id ∷ " denied: " ∷ reason ∷ [])) (some tenant)
          (or_default workspace_id) "tenant" "deny_grant_request"
    updated ← found request_id " after denial" (get request_id none none requests)
    ok (
      updated,
      record db {
        requests = requests;
        audit_events = append_event_sqlite py event db.audit_events;
      },
    )

  unfoldable pub revoke_grant_request :
      Moment
      → String
      → String
      → String
      → Option String
      → Option String
      → Database
      → Result (GrantRequest × Database)
  unfolding revoke_linked
  revoke_grant_request at request_id operator_id reason tenant_id workspace_id db = do
    validate_string_length reason "reason" max_reason_length
    tenant ← require_tenant tenant_id
    request ← found request_id "" (get request_id (some tenant) workspace_id db.requests)
    has_status "revoke" request_id "approved" request
    let grants = revoke_linked at operator_id reason tenant request.grant_id workspace_id db.grants
    let requests = update_request request_id (revoke operator_id reason at.now) db.requests
    let event =
        request_event at request_id operator_id "operator" false
          (concat ("Grant request " ∷ request_id ∷ " revoked: " ∷ reason ∷ [])) (some tenant)
          (or_default workspace_id) "tenant" "revoke_grant_request"
    updated ← found request_id " after revocation" (get request_id none none requests)
    ok (
      updated,
      record db {
        grants = grants;
        requests = requests;
        audit_events = append_event_sqlite py event db.audit_events;
      },
    )

  -- One event for each expired request; the nth reads the clock and the id generator as `at n`.
  unfoldable pub append_expired : (ℕ → Moment) → List RequestRow → List AuditEvent → List AuditEvent
  unfolding workspace_or_system tenant_scope
  append_expired at [] events = events
  append_expired at (row ∷ rest) events =
      append_expired (λ n. at (suc n)) rest
        (append_event_sqlite py
          (request_event (at 0) row.request.id "system" "system" false
            (concat ("Grant request " ∷ row.request.id ∷ " expired after 24 hours" ∷ []))
            row.tenant_id (workspace_or_system row.workspace_id) (tenant_scope row.tenant_id)
            "expire_grant_request")
          events)

  -- Of `at`, the cutoff and the time of the rows; of `readings`, the events.
  unfoldable pub expire_old_requests : Moment → (ℕ → Moment) → Database → ℕ × Database
  unfolding append_expired
  expire_old_requests at readings db =
      let pending = select (is_pending at.day_ago) db.requests in
      (
        length pending,
        record db {
          requests = mark_all_expired at.now pending db.requests;
          audit_events = append_expired readings pending db.audit_events;
        },
      )
