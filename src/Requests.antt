-- ===== src/Requests.antt =====
-- The table of grant requests (SqlAlchemyGrantRequestRepository of
-- backend/src/core/repositories_sqlalchemy.py) and the call of
-- backend/src/grants/grant_requests.py that fills it. A statement that the database runs at once is
-- one function.
pub mod Rows
pub mod Decisions
use grantlayer.Prelude.{
  ℕ, String, Bool, true, ◌&&◌, Option, none, some, List, [], ◌∷◌, ◌++◌, map, ◌==◌, opt_eq, before,
  is_empty, length, page, sort_by, select, update_where, any_where, first_where, if◌then◌else◌,
}
use grantlayer.Result.{Result, ok, err, value_error, database_error, ◌>>=◌, ◌>>◌}
use grantlayer.Models.{GrantRequest}
use grantlayer.Validation.{
  validate_string_length, max_short_id_length, max_role_length, max_name_length, max_reason_length,
}
use grantlayer.Database.{Database, RequestRow}

abbrev pub matches : Option String → Option String → Bool
matches none value = true
matches (some wanted) value = opt_eq value (some wanted)

abbrev pub has_id : String → RequestRow → Bool
has_id request_id row = row.request.id == request_id

unfoldable pub get : String → Option String → Option String → List RequestRow → Option GrantRequest
get request_id tenant_id workspace_id rows =
    elim (first_where
      (λ row.
        has_id request_id row
        && (matches tenant_id row.tenant_id && matches workspace_id row.workspace_id))
      rows) [ none ↦ none | some row ↦ some row.request ]

unfoldable pub or_default : Option String → String
or_default none = "default"
or_default (some w) = w

unfoldable pub require_tenant : Option String → Result String
require_tenant none = err (value_error "tenant_id is required")
require_tenant (some t) = ok t

-- The INSERT of a request: the decision columns are left at their defaults.
unfoldable pub insert : GrantRequest → String → String → List RequestRow → Result (List RequestRow)
insert request tenant_id workspace_id rows =
    if is_empty workspace_id
    then err (value_error "workspace_id is required")
    else if any_where (has_id request.id) rows
    then err database_error
    else ok (
        rows
        ++ record {
          request = record request {
            approved_by = none;
            approved_at = none;
            denied_by = none;
            denied_at = none;
            denial_reason = none;
            revoked_by = none;
            revoked_at = none;
            revoked_reason = none;
            grant_id = none;
          };
          tenant_id = some tenant_id;
          workspace_id = some workspace_id;
        }
          ∷ [])

unfoldable pub create_grant_request :
    GrantRequest → Option String → Option String → Database → Result Database
unfolding insert or_default require_tenant validate_string_length
create_grant_request request tenant_id workspace_id db = do
  validate_string_length request.subject_id "subject_id" max_short_id_length
  validate_string_length request.role "role" max_role_length
  validate_string_length request.action "action" max_name_length
  validate_string_length request.resource "resource" max_name_length
  validate_string_length request.reason "reason" max_reason_length
  tenant ← require_tenant tenant_id
  requests ← insert request tenant (or_default workspace_id) db.requests
  ok (record db { requests = requests })

-- `mark_approved`, `mark_denied`, `mark_revoked`, `mark_expired`: the WHERE names the id alone.
abbrev pub update_request :
    String → (GrantRequest → GrantRequest) → List RequestRow → List RequestRow
update_request request_id f rows =
    update_where (has_id request_id) (λ row. record row { request = f row.request }) rows

abbrev pub approve : String → String → String → GrantRequest → GrantRequest
approve operator_id grant_id now request = record request {
  status = "approved";
  approved_by = some operator_id;
  approved_at = some now;
  grant_id = some grant_id;
  updated_at = now;
}

abbrev pub deny : String → String → String → GrantRequest → GrantRequest
deny operator_id reason now request = record request {
  status = "denied";
  denied_by = some operator_id;
  denied_at = some now;
  denial_reason = some reason;
  updated_at = now;
}

abbrev pub revoke : String → String → String → GrantRequest → GrantRequest
revoke operator_id reason now request = record request {
  status = "revoked";
  revoked_by = some operator_id;
  revoked_at = some now;
  revoked_reason = some reason;
  updated_at = now;
}

abbrev pub expire : String → GrantRequest → GrantRequest
expire now request = record request { status = "expired"; updated_at = now }

-- `list_pending_for_expiry`
unfoldable pub is_pending : String → RequestRow → Bool
is_pending cutoff row = row.request.status == "requested" && before row.request.created_at cutoff

unfoldable pub is_listed : Option String → Option String → Option String → RequestRow → Bool
is_listed status_filter tenant_id workspace_id row =
    matches tenant_id row.tenant_id
    && (matches workspace_id row.workspace_id && matches status_filter (some row.request.status))

-- Newest first; rows of one `created_at` keep the order of the table, which SQL leaves open.
unfoldable pub list :
    Option String
    → Option String
    → Option String
    → Option ℕ
    → ℕ
    → List RequestRow
    → List GrantRequest
unfolding is_listed
list status_filter tenant_id workspace_id limit offset rows =
    map (λ row. row.request)
      (page limit offset (
        sort_by (λ a b. before b.request.created_at a.request.created_at)
          (select (is_listed status_filter tenant_id workspace_id) rows)))

unfoldable pub count : Option String → Option String → Option String → List RequestRow → ℕ
unfolding is_listed
count status_filter tenant_id workspace_id rows =
    length (select (is_listed status_filter tenant_id workspace_id) rows)

unfoldable pub get_id_by_grant_id : String → List RequestRow → Option String
get_id_by_grant_id grant_id rows =
    elim (first_where (λ row. opt_eq row.request.grant_id (some grant_id)) rows) [
      | none ↦ none
      | some row ↦ some row.request.id
    ]
