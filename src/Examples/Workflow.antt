-- ===== src/Examples/Workflow.antt =====
-- Runs of the request workflow and of the protected action.
use grantlayer.Prelude.{
  String, ◌≡◌, refl, true, false, is_empty, none, some, [], ◌∷◌, All, arith, concat, any_where,
  first_where, select, update_where, sort_by, join,
}
use grantlayer.Result.{ok}
use grantlayer.Platform.{aware}
use grantlayer.Models.{Grant, GrantRequest, PolicyResult}
use grantlayer.Signing.{
  sign_grant, is_unset, verify_grant_signature, payload_hash, canonical_grant_payload,
}
use grantlayer.Policy.Engine.{evaluate_access}
use grantlayer.Policy.Constraints.{check_constraints}
use grantlayer.Validation.{validate_string_length}
use grantlayer.Executions
use grantlayer.Challenges.{validate_challenge, read_and_check, check_challenge, get_challenge}
use grantlayer.Grants
use grantlayer.Grants.{GrantRow}
use grantlayer.Database.{Database}
use grantlayer.Requests.{require_tenant, or_default, get}
use grantlayer.Requests.Decisions.{
  approve_grant_request, deny_grant_request, revoke_grant_request, found, has_status,
}
use grantlayer.Requests.Decisions.Approval.{IsApproval, approve_grant_request-IsApproval}
use grantlayer.Requests.Decisions.Scoped.{Changed, IsLinked, taken_back}
use grantlayer.Requests.Decisions.Withdrawal.{
  IsDecided, refused, withdrawn, deny_grant_request-requested, revoke_grant_request-approved,
}
use grantlayer.Requests.Decisions.Separation.{IsSound, approves, here, next, Reach-IsSound}
use grantlayer.Exercise.{
  Attempt, Readings, Store, Response, matched_grant, on_signature, on_challenge, challenge_word,
  consume, response,
}
use grantlayer.Exercise.Handler.{handle_demo_action, decide, commit, check_signature}
use grantlayer.Exercise.Mediation.{IsAuthorized, scope_grants, handle_demo_action-IsAuthorized}
use grantlayer.Exercise.Writes.{IsAtomic}
use grantlayer.Exercise.Failure.{handle_demo_action-IsAtomic}
use grantlayer.Examples.Fixtures.{
  toy, deploy, request, row_of, challenge_row, wish, office, at_noon, value_or,
}

abbrev approved : GrantRequest × Grant × Database
approved =
    value_or (wish, deploy, office)
      (approve_grant_request toy at_noon "request-1" "root" (some "acme") none office)

approving :
    approve_grant_request toy at_noon "request-1" "root" (some "acme") none office
    ≡ ok (approved.0, approved.1, approved.2)
unfolding approve_grant_request require_tenant found get first_where has_status sign_grant
    Grants.create or_default any_where update_where
approving = refl

approve_grant_request-IsApproval_example :
    (tenant : String) × (q : GrantRequest) × (some "acme" ≡ some tenant)
    × IsApproval toy at_noon "request-1" "root" office approved.2 approved.0 approved.1 tenant none
        q
approve_grant_request-IsApproval_example =
    approve_grant_request-IsApproval toy at_noon "request-1" "root" office approved.2 approved.0
      approved.1 (some "acme") none approving

office-IsSound : IsSound office.requests
unfolding any_where
office-IsSound = record { keyed = (refl, tt); separate = (λ e. absurd (ground arith), tt) }

Reach-IsSound_example : IsSound approved.2.requests
Reach-IsSound_example = Reach-IsSound toy office approved.2 office-IsSound (
    next here
      (approves at_noon "request-1" "root" (some "acme") none approved.0 approved.1 approving))

abbrev denied : GrantRequest × Database
denied =
    value_or (wish, office)
      (deny_grant_request toy at_noon "request-1" "root" "no" (some "acme") none office)

denying :
    deny_grant_request toy at_noon "request-1" "root" "no" (some "acme") none office
    ≡ ok (denied.0, denied.1)
unfolding deny_grant_request require_tenant validate_string_length found get first_where has_status
    update_where
denying = refl

deny_grant_request-requested_example :
    (tenant : String) × (q : GrantRequest) × (some "acme" ≡ some tenant)
    × IsDecided toy at_noon "request-1" "root" "no" office denied.1 denied.0 tenant none "requested"
        (refused "root" "no" at_noon.now)
        q
    × (denied.1.grants ≡ office.grants)
deny_grant_request-requested_example =
    deny_grant_request-requested toy at_noon "request-1" "root" "no" office denied.1 denied.0
      (some "acme") none denying

abbrev undone : GrantRequest × Database
undone =
    value_or (wish, office)
      (revoke_grant_request toy at_noon "request-1" "root" "leak" (some "acme") none approved.2)

revoking :
    revoke_grant_request toy at_noon "request-1" "root" "leak" (some "acme") none approved.2
    ≡ ok (undone.0, undone.1)
unfolding revoke_grant_request approve_grant_request validate_string_length require_tenant found get
    first_where has_status sign_grant Grants.create or_default any_where update_where
revoking = refl

revoke_grant_request-approved_example :
    (tenant : String) × (q : GrantRequest) × (some "acme" ≡ some tenant)
    × IsDecided toy at_noon "request-1" "root" "leak" approved.2 undone.1 undone.0 tenant none
        "approved"
        (withdrawn "root" "leak" at_noon.now)
        q
    × Changed
        (IsLinked tenant none q.grant_id)
        (taken_back "root" (concat ("Revoked from request: " ∷ "leak" ∷ [])) at_noon.now)
        approved.2.grants
        undone.1.grants
revoke_grant_request-approved_example =
    revoke_grant_request-approved toy at_noon "request-1" "root" "leak" approved.2 undone.1 undone.0
      (some "acme") none revoking

abbrev attempt : Attempt
attempt = record {
  request = request;
  challenge_id = some "challenge-1";
  operator_id = none;
  workspace_id = "default";
  require_challenge = true;
}

abbrev readings : Readings
readings = record {
  execution_id = "execution-1";
  executed_at = "2026-03-01T00:01:00Z";
  now = aware 500;
  challenge_now = "2026-03-01T00:01:00Z";
  event_id = "event-1";
  event_at = "2026-03-01T00:01:00Z";
  failure_id = "execution-2";
  audit_error = none;
}

abbrev store : Store
store = record {
  db = record office { grants = row_of (value_or deploy (sign_grant toy deploy)) ∷ [] };
  challenges = challenge_row ∷ [];
}

abbrev no_response : Response
no_response = record {
  approved = false;
  result = "";
  message = none;
  reason = "";
  reason_code = "";
  matched_grant_id = none;
  challenge_id = none;
  challenge_result = none;
  audit_event_id = none;
  grant_signature_result = "";
  execution_id = "";
}

abbrev answer : Response
answer = value_or no_response (handle_demo_action toy attempt (some "acme") readings store).0

abbrev store' : Store
store' = (handle_demo_action toy attempt (some "acme") readings store).1

acting : handle_demo_action toy attempt (some "acme") readings store ≡ (ok answer, store')
unfolding handle_demo_action is_unset decide evaluate_access select Grants.list sort_by sign_grant
    check_constraints commit Executions.create any_where
acting = refl

allowed : answer.approved ≡ true
unfolding handle_demo_action is_unset decide evaluate_access select Grants.list sort_by sign_grant
    check_constraints commit Executions.create any_where check_signature matched_grant first_where
    verify_grant_signature on_signature payload_hash canonical_grant_payload join concat
    on_challenge validate_challenge read_and_check check_challenge get_challenge challenge_word
    consume Grants.try_consume_use response
allowed = refl

named : All (λ row. is_empty row.grant.id ≡ false) store.db.grants
unfolding sign_grant
named = (refl, tt)

handle_demo_action-IsAuthorized_example :
    (tenant : String) × (grant : Grant) × (result : PolicyResult) × (some "acme" ≡ some tenant)
    × IsAuthorized toy attempt readings store store' tenant
        (scope_grants toy attempt readings store store' answer tenant)
        grant
        result
handle_demo_action-IsAuthorized_example =
    handle_demo_action-IsAuthorized toy attempt readings store store' answer (some "acme") named
      acting allowed

handle_demo_action-IsAtomic_example : IsAtomic toy attempt "acme" readings store.db store'.db
handle_demo_action-IsAtomic_example = handle_demo_action-IsAtomic toy attempt "acme" readings store
