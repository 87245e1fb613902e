-- ===== src/Exercise.antt =====
-- The protected action (backend/src/demo/demo_action.py): every attempt is decided on the grants
-- of its workspace, the signature of the grant, the challenge and the uses left, and recorded.
-- The challenge is validated in a transaction of its own, before the one that consumes a use and
-- writes the execution and its event.
pub mod Handler
pub mod Steps
pub mod Mediation
pub mod Writes
pub mod Failure
use grantlayer.Prelude.{
  String, Bool, true, false, not, ◌&&◌, Option, none, some, List, [], ◌∷◌, ◌==◌, opt_eq, is_empty,
  concat, first_where, if◌then◌else◌,
}
use grantlayer.Result.{Error}
use grantlayer.Platform.{DateTime}
use grantlayer.Models.{Grant, AccessRequest, PolicyResult, AuditEvent, GrantExecution}
use grantlayer.Signing
use grantlayer.Signing.{SignatureResult, is_unset}
use grantlayer.Challenges
use grantlayer.Challenges.{ChallengeResult, ChallengeRow, validate_challenge}
use grantlayer.Grants
use grantlayer.Requests.{get_id_by_grant_id}
use grantlayer.Database.{Database}

-- The arguments of the call, and the environment's GRANTLAYER_REQUIRE_CHALLENGE.
pub record Attempt : Type 0 where
  pub request : AccessRequest
  pub challenge_id : Option String
  pub operator_id : Option String
  pub workspace_id : String
  pub require_challenge : Bool

-- What the clock and the id generator give the call, in the order of their use.
pub record Readings : Type 0 where
  pub execution_id : String
  pub executed_at : String
  pub now : DateTime
  pub challenge_now : String
  pub event_id : String
  pub event_at : String
  pub failure_id : String
  -- what the database raises at the append of the event or at the link to it, where it does
  pub audit_error : Option Error

pub record Store : Type 0 where
  pub db : Database
  pub challenges : List ChallengeRow

-- The dict that is returned; a key that a branch leaves out is `none`.
pub record Response : Type 0 where
  pub approved : Bool
  pub result : String
  pub message : Option String
  pub reason : String
  pub reason_code : String
  pub matched_grant_id : Option String
  pub challenge_id : Option String
  pub challenge_result : Option String
  pub audit_event_id : Option String
  pub grant_signature_result : String
  pub execution_id : String

-- A decision on its way: the policy result so far, and what the checks have found.
pub record Decision : Type 0 where
  pub result : PolicyResult
  pub grant_signature_result : String
  pub challenge_present : Bool
  pub challenge_result : String
  pub challenge_id : Option String

unfoldable pub new_execution : Attempt → Readings → GrantExecution
new_execution attempt at = record {
  action = attempt.request.action;
  resource = attempt.request.resource;
  id = at.execution_id;
  grant_id = none;
  grant_request_id = none;
  operator_id = attempt.operator_id;
  challenge_id = attempt.challenge_id;
  challenge_result = none;
  policy_result = "";
  result = "denied";
  error_code = none;
  executed_at = at.executed_at;
  audit_event_id = none;
  metadata_json = none;
}

unfoldable pub overruled : String → String → PolicyResult → PolicyResult
overruled reason reason_code result = record {
  approved = false;
  reason = reason;
  matched_grant_id = result.matched_grant_id;
  reason_code = some reason_code;
  constraint_violation = none;
}

unfoldable pub challenge_word : ChallengeResult → String
challenge_word Challenges.valid = "valid"
challenge_word Challenges.not_found = "not_found"
challenge_word Challenges.expired = "expired"
challenge_word Challenges.already_used = "already_used"
challenge_word Challenges.mismatch = "mismatch"

-- `sig_check` and what `deny_map` makes of it.
unfoldable pub on_signature : SignatureResult → PolicyResult → PolicyResult × String
on_signature Signing.valid result = (result, "valid")
on_signature Signing.missing result =
    (overruled "grant_signature_missing" "grant_signature_missing" result, "missing")
on_signature Signing.invalid result =
    (overruled "grant_signature_invalid" "grant_signature_invalid" result, "invalid")
on_signature Signing.hash_mismatch result =
    (overruled "grant_payload_hash_mismatch" "grant_payload_hash_mismatch" result, "hash_mismatch")
on_signature Signing.unknown_key result =
    (overruled "grant_signature_unknown_key" "grant_signature_unknown_key" result, "unknown_key")

unfoldable pub matched_grant : Option String → List Grant → Option Grant
matched_grant grant_id grants =
    if is_unset grant_id
    then none
    else first_where (λ grant. opt_eq (some grant.id) grant_id) grants

unfoldable pub on_challenge :
    Attempt
    → String
    → Readings
    → PolicyResult
    → String
    → List ChallengeRow
    → Decision × List ChallengeRow
on_challenge attempt tenant at result signature rows = elim attempt.challenge_id [
  | none ↦ (
    record {
      result = result;
      grant_signature_result = signature;
      challenge_present = false;
      challenge_result = "legacy_mode";
      challenge_id = none;
    },
    rows,
  )
  | some id ↦
      let ((found, found_id), rows') =
        validate_challenge at.challenge_now id attempt.request.subject_id attempt.request.action
          attempt.request.resource (some tenant) rows in
      let word = challenge_word found in
      (
        record {
          result =
              if word == "valid"
              then result
              else overruled (concat ("Challenge invalid: " ∷ word ∷ [])) "challenge_invalid"
                  result;
          grant_signature_result = signature;
          challenge_present = true;
          challenge_result = word;
          challenge_id = found_id;
        },
        rows',
      )
]

-- An approval takes a use of its grant; where none is left, it becomes a denial.
unfoldable pub consume : Decision → List Grants.GrantRow → Decision × List Grants.GrantRow
consume decision grants = elim decision.result.matched_grant_id [
  | none ↦ (decision, grants)
  | some grant_id ↦
      if decision.result.approved && not (is_empty grant_id)
      then (let (consumed, grants') = Grants.try_consume_use grant_id grants in
          if consumed then (decision, grants') else (
            record decision {
              result = overruled "grant_usage_exhausted" "grant_usage_exhausted" decision.result;
            },
            grants',
          ))
      else (decision, grants)
]

unfoldable pub populated : Attempt → Readings → Decision → Database → GrantExecution
populated attempt at decision db = record (new_execution attempt at) {
  grant_id = decision.result.matched_grant_id;
  grant_request_id = elim decision.result.matched_grant_id [
    | none ↦ none
    | some grant_id ↦ if is_empty grant_id then none else get_id_by_grant_id grant_id db.requests
  ];
  challenge_id = decision.challenge_id;
  challenge_result = some decision.challenge_result;
  policy_result = decision.result.reason;
  result = if decision.result.approved then "succeeded" else "denied";
  error_code = if decision.result.approved then none else decision.result.reason_code;
}

unfoldable pub decision_event : Attempt → String → Readings → Decision → AuditEvent
decision_event attempt tenant at decision = record {
  subject_id = attempt.request.subject_id;
  role = attempt.request.role;
  action = attempt.request.action;
  resource = attempt.request.resource;
  approved = decision.result.approved;
  reason = decision.result.reason;
  workspace_id = attempt.workspace_id;
  matched_grant_id = decision.result.matched_grant_id;
  challenge_id = decision.challenge_id;
  challenge_present = decision.challenge_present;
  challenge_result = decision.challenge_result;
  grant_signature_result = decision.grant_signature_result;
  id = at.event_id;
  timestamp = at.event_at;
  row_hash = none;
  prev_hash = none;
  tenant_id = some tenant;
  scope = some "tenant";
  reason_code = decision.result.reason_code;
  constraint_violation = decision.result.constraint_violation;
  seq = none;
}

unfoldable pub or_word : String → Option String → String
or_word word none = word
or_word word (some s) = if is_empty s then word else s

unfoldable pub response : Attempt → Readings → Decision → Response
unfolding or_word
response attempt at decision =
    if decision.result.approved
    then record {
      approved = true;
      result = "allowed";
      message = some (
          concat (
            "Action '" ∷ attempt.request.action ∷ "' on '" ∷ attempt.request.resource
            ∷ "' approved for '" ∷ attempt.request.subject_id ∷ "'." ∷ []));
      reason = decision.result.reason;
      reason_code = or_word "access_granted" decision.result.reason_code;
      matched_grant_id = decision.result.matched_grant_id;
      challenge_id = decision.challenge_id;
      challenge_result = none;
      audit_event_id = some at.event_id;
      grant_signature_result = decision.grant_signature_result;
      execution_id = at.execution_id;
    }
    else record {
      approved = false;
      result = "denied";
      message = none;
      reason = decision.result.reason;
      reason_code = or_word "denied" decision.result.reason_code;
      matched_grant_id = none;
      challenge_id = none;
      challenge_result = some decision.challenge_result;
      audit_event_id = some at.event_id;
      grant_signature_result = decision.grant_signature_result;
      execution_id = at.execution_id;
    }
