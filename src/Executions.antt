-- ===== src/Executions.antt =====
-- The table of action attempts (SqlAlchemyGrantExecutionRepository of
-- backend/src/core/repositories_sqlalchemy.py, called by backend/src/grants/grant_executions.py).
use grantlayer.Prelude.{
  ℕ, String, Bool, true, ◌&&◌, Option, none, some, List, [], ◌∷◌, ◌++◌, map, ◌==◌, opt_eq, before,
  is_empty, length, page, sort_by, select, update_where, any_where, first_where, if◌then◌else◌,
}
use grantlayer.Result.{Result, ok, err, value_error, database_error}
use grantlayer.Models.{GrantExecution}
use grantlayer.Database.{ExecutionRow}

abbrev pub matches : Option String → Option String → Bool
matches none value = true
matches (some wanted) value = opt_eq value (some wanted)

abbrev pub has_id : String → ExecutionRow → Bool
has_id execution_id row = row.execution.id == execution_id

abbrev pub in_scope : Option String → Option String → ExecutionRow → Bool
in_scope tenant_id workspace_id row =
    matches tenant_id (some row.tenant_id) && matches workspace_id (some row.workspace_id)

unfoldable pub get :
    String → Option String → Option String → List ExecutionRow → Option GrantExecution
get execution_id tenant_id workspace_id rows =
    elim (first_where (λ row. has_id execution_id row && in_scope tenant_id workspace_id row)
      rows) [ none ↦ none | some row ↦ some row.execution ]

unfoldable pub is_listed :
    (grant_id grant_request_id operator_id tenant_id workspace_id : Option String)
    → ExecutionRow
    → Bool
is_listed grant_id grant_request_id operator_id tenant_id workspace_id row =
    in_scope tenant_id workspace_id row
    && (matches grant_id row.execution.grant_id
        && (matches grant_request_id row.execution.grant_request_id
            && matches operator_id row.execution.operator_id))

-- Newest first; rows of one `executed_at` keep the order of the table, which SQL leaves open.
unfoldable pub list :
    (grant_id grant_request_id operator_id : Option String)
    → ℕ
    → ℕ
    → (tenant_id workspace_id : Option String) → List ExecutionRow
    → List GrantExecution
unfolding is_listed
list grant_id grant_request_id operator_id limit offset tenant_id workspace_id rows =
    map (λ row. row.execution)
      (page (some limit) offset (
        sort_by (λ a b. before b.execution.executed_at a.execution.executed_at)
          (select (is_listed grant_id grant_request_id operator_id tenant_id workspace_id) rows)))

unfoldable pub count :
    (grant_id grant_request_id operator_id tenant_id workspace_id : Option String)
    → List ExecutionRow
    → ℕ
unfolding is_listed
count grant_id grant_request_id operator_id tenant_id workspace_id rows =
    length (select (is_listed grant_id grant_request_id operator_id tenant_id workspace_id) rows)

-- The id is the primary key.
unfoldable pub create :
    GrantExecution → String → String → List ExecutionRow → Result (List ExecutionRow)
create execution tenant_id workspace_id rows =
    if is_empty workspace_id
    then err (value_error "workspace_id is required")
    else if any_where (has_id execution.id) rows
    then err database_error
    else ok (
        rows
        ++ record { execution = execution; tenant_id = tenant_id; workspace_id = workspace_id }
          ∷ [])

unfoldable pub update_audit_event_id : String → String → List ExecutionRow → List ExecutionRow
update_audit_event_id execution_id audit_event_id rows =
    update_where (has_id execution_id)
      (λ row. record row {
        execution = record row.execution { audit_event_id = some audit_event_id };
      })
      rows
