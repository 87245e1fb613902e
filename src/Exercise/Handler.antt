-- ===== src/Exercise/Handler.antt =====
-- The call itself (backend/src/demo/demo_action.py, handle_demo_action): the order of the steps, the
-- one transaction of a decision, and the record of a failure.
use grantlayer.Prelude.{String, false, ◌&&◌, Option, none, some, List, is_empty, if◌then◌else◌}
use grantlayer.Result.{Result, ok, err, value_error}
use grantlayer.Platform.{Platform}
use grantlayer.Models.{Grant, PolicyResult, GrantExecution}
use grantlayer.Policy.Engine.{evaluate_access}
use grantlayer.Signing.{is_unset, verify_grant_signature}
use grantlayer.Audit.{append_event_sqlite}
use grantlayer.Grants
use grantlayer.Executions
use grantlayer.Exercise.{
  Attempt, Readings, Store, Response, Decision, new_execution, on_signature, matched_grant,
  on_challenge, consume, populated, decision_event, response,
}

-- The decision where a challenge is required and none is given, its execution row, and the answer.
unfoldable pub challenge_required : Decision
challenge_required = record {
  result = record {
    approved = false;
    reason = "challenge_required";
    matched_grant_id = none;
    reason_code = some "challenge_required";
    constraint_violation = none;
  };
  grant_signature_result = "not_checked";
  challenge_present = false;
  challenge_result = "required_missing";
  challenge_id = none;
}

unfoldable pub refused_execution : Attempt → Readings → GrantExecution
refused_execution attempt at = record (new_execution attempt at) {
  challenge_result = some "required_missing";
  policy_result = "denied";
  result = "denied";
  error_code = some "challenge_required";
}

-- What the handler of exceptions makes of the execution, with a fresh id.
abbrev pub failure : Readings → GrantExecution → GrantExecution
failure at execution = record execution {
  policy_result = "error";
  result = "failed";
  error_code = some "internal_handler_error";
  id = at.failure_id;
}

unfoldable pub failed :
    Attempt → String → Readings → GrantExecution → Store → Result Response × Store
failed attempt tenant at execution store =
    elim (Executions.create (failure at execution) tenant attempt.workspace_id
      store.db.executions) [
        | err e ↦ (err e, store)
        | ok executions ↦ (
          ok (record {
            approved = false;
            result = "failed";
            message = none;
            reason = "internal_handler_error";
            reason_code = "internal_handler_error";
            matched_grant_id = none;
            challenge_id = none;
            challenge_result = none;
            audit_event_id = none;
            grant_signature_result = "not_checked";
            execution_id = at.failure_id;
          }),
          record store { db = record store.db { executions = executions } },
        )
      ]

module _ (py : Platform) where
  unfoldable pub check_signature : List Grant → PolicyResult → PolicyResult × String
  check_signature grants result = elim (matched_grant result.matched_grant_id grants) [
    | none ↦ (result, "not_checked")
    | some grant ↦ on_signature (verify_grant_signature py grant) result
  ]

  -- The one transaction of a decision: what `consume` left of the grants, the execution, the event,
  -- and the link between the two. Where one of the last three raises, all of it is rolled back.
  unfoldable pub commit :
      Attempt
      → String
      → Readings
      → Decision
      → GrantExecution
      → List Grants.GrantRow
      → Store
      → Result Response × Store
  commit attempt tenant at decision execution grants store =
      elim (Executions.create execution tenant attempt.workspace_id store.db.executions) [
        | err e ↦ failed attempt tenant at execution store
        | ok executions ↦ elim at.audit_error [
          | some e ↦ failed attempt tenant at execution store
          | none ↦ (
            ok (response attempt at decision),
            record store {
              db = record store.db {
                grants = grants;
                executions =
                    Executions.update_audit_event_id at.execution_id at.event_id executions;
                audit_events =
                    append_event_sqlite py (decision_event attempt tenant at decision)
                      store.db.audit_events;
              };
            },
          )
        ]
      ]

  unfoldable pub decide : Attempt → String → Readings → Store → Result Response × Store
  decide attempt tenant at store =
      let grants = Grants.list (some tenant) (some attempt.workspace_id) none 0 store.db.grants in
      elim (evaluate_access py attempt.request grants at.now) [
        | err e ↦ failed attempt tenant at (new_execution attempt at) store
        | ok result ↦
            let (checked, signature) = check_signature grants result in
            let (judged, challenges) =
              on_challenge attempt tenant at checked signature store.challenges in
            let (decision, rows) = consume judged store.db.grants in
            commit attempt tenant at decision (populated attempt at decision store.db) rows
              (record store { challenges = challenges })
      ]

  unfoldable pub handle_demo_action :
      Attempt → Option String → Readings → Store → Result Response × Store
  handle_demo_action attempt none at store = (err (value_error "tenant_id is required"), store)
  handle_demo_action attempt (some tenant) at store =
      if is_empty attempt.workspace_id
      then (err (value_error "workspace_id is required"), store)
      else if attempt.require_challenge && is_unset attempt.challenge_id
      then commit attempt tenant at challenge_required (refused_execution attempt at)
          store.db.grants store
      else decide attempt tenant at store
