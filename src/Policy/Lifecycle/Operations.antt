-- ===== src/Policy/Lifecycle/Operations.antt =====
-- build_approval_request_lifecycle and transition_approval_request
-- (backend/src/policy/approval_lifecycle.py).
use grantlayer.Prelude.{
  mem, ℕ, ◌-◌, String, Bool, false, not, ◌&&◌, Option, none, some, List, [], ◌∷◌, ◌++◌, ◌==◌,
  concat, is_empty, length, ltb, leb, if◌then◌else◌,
}
use Prim.Native.Nat.{max}
use grantlayer.Prelude.Int.{ℤ, pos, negsuc, str}
use grantlayer.Platform.{Json, null, boolean}
use grantlayer.Policy.Approval.Inputs.{Python}
use grantlayer.Policy.Approval.{Requirement}
use grantlayer.Policy.Lifecycle.{
  Approver, Context, dict_context, other_context, Input, missing, malformed, given, ApprovalRequest,
  transitions, valid_transitions, normalise_approvers, approved_roles, or_text, build_response,
}

-- The arguments that a build hands on; `approvers` that are no list are the empty one.
pub record Details : Type 0 where
  pub request_id : Option String
  pub action : Json
  pub actor_id : Option String
  pub subject_id : Option String
  pub requested_by : Option String
  pub approvers : List Approver
  pub created_at : Option String
  pub expires_at : Option String

-- The fields of a response that has seen no approval.
unfoldable pub fields_of :
    Details
    → String
    → ℕ
    → List String
    → String
    → String
    → List String
    → List String
    → ApprovalRequest
unfolding normalise_approvers
fields_of d status required roles decision reason blockers warnings = record {
  request_id = d.request_id;
  action = d.action;
  actor_id = d.actor_id;
  subject_id = d.subject_id;
  requested_by = d.requested_by;
  status = status;
  required_approvals = required;
  required_roles = roles;
  received_approvals = 0;
  approved_by_roles = [];
  approval_history = [];
  approvers = normalise_approvers d.approvers;
  decision = some decision;
  reason = some reason;
  blockers = blockers;
  warnings = warnings;
  created_at = d.created_at;
  expires_at = d.expires_at;
  context = none;
}

-- The fields for a requirement.
unfoldable pub built : Details → Input Requirement → ApprovalRequest
unfolding fields_of
built d missing =
    fields_of d "blocked" 0 [] "blocked" "missing_approval_requirement"
      ("approval_requirement_missing" ∷ []) []
built d malformed =
    fields_of d "blocked" 0 [] "blocked" "malformed_approval_requirement"
      ("approval_requirement_malformed" ∷ []) []
built d (given q) =
    if q.decision == "no_approval_required"
    then fields_of d "not_required" 0 [] "no_approval_required" q.reason q.blockers q.warnings
    else if q.decision == "blocked"
    then fields_of d "blocked" 0 [] "blocked" q.reason q.blockers q.warnings
    else if q.decision == "approval_required"
    then fields_of d "pending" (max 1 q.required_approvals) q.required_roles q.decision q.reason
        q.blockers q.warnings
    else if q.decision == "four_eyes_required"
    then fields_of d "pending" (max 1 q.required_approvals) q.required_roles q.decision q.reason
        q.blockers q.warnings
    else fields_of d "blocked" 0 [] "blocked" "unknown_approval_decision"
        ("unknown_decision" ∷ q.blockers) q.warnings

-- The arguments of a transition.
pub record Move : Type 0 where
  pub transition : String
  pub actor_id : Option String
  pub reason : Option String
  pub at : Option String
  pub context : Option Context
  pub include_details : Bool

-- `context.get("allowBlockedReopen") is True`
unfoldable pub entry_is_true : String → List (String × Json) → Bool
entry_is_true key [] = false
entry_is_true key ((k, boolean b) ∷ es) =
    let rest = entry_is_true key es in if k == key then b else rest
entry_is_true key ((k, v) ∷ es) =
    let rest = entry_is_true key es in if k == key then false else rest

unfoldable pub allows_reopen : Option Context → Bool
unfolding entry_is_true
allows_reopen none = false
allows_reopen (some other_context) = false
allows_reopen (some (dict_context es)) = entry_is_true "allowBlockedReopen" es

-- `a - b`
unfoldable pub minus : ℕ → ℕ → ℤ
minus a b = if leb b a then pos (a - b) else negsuc (b - a - 1)

unfoldable pub response_to_none : Move → String → String → ApprovalRequest
response_to_none move reason blocker = record {
  request_id = none;
  action = null;
  actor_id = move.actor_id;
  subject_id = none;
  requested_by = none;
  status = "blocked";
  required_approvals = 0;
  required_roles = [];
  received_approvals = 0;
  approved_by_roles = [];
  approval_history = [];
  approvers = [];
  decision = some "blocked";
  reason = some reason;
  blockers = blocker ∷ [];
  warnings = [];
  created_at = move.at;
  expires_at = none;
  context = none;
}

-- `_copy_request_with_blocker`, before its response is built.
unfoldable pub copy_with_blocker : ApprovalRequest → Move → String → ApprovalRequest
copy_with_blocker r move blocker = record r {
  actor_id = move.actor_id;
  blockers = blocker ∷ [];
  warnings = [];
}

-- A transition that is carried out: its new status, decision and reason.
unfoldable pub moved : ApprovalRequest → Move → String → Option String → String → ApprovalRequest
unfolding or_text
moved r move status decision reason = record r {
  actor_id = move.actor_id;
  status = status;
  decision = decision;
  reason = some (or_text move.reason reason);
  blockers = [];
  warnings = [];
}

-- The line that an approval by somebody adds to the history.
unfoldable pub history_line : Move → List String
unfolding or_text
history_line move = elim move.actor_id [
  | none ↦ []
  | some actor ↦
      if is_empty actor
      then []
      else concat (or_text move.at "now" ∷ ": " ∷ actor ∷ " approved" ∷ []) ∷ []
]

unfoldable pub approve : ApprovalRequest → Move → ApprovalRequest
unfolding moved history_line minus
approve r move =
    let roles = approved_roles r.approvers r.required_roles in
    if leb r.required_approvals (length roles) && ltb 0 r.required_approvals
    then record (moved r move "approved" (some "approved") "approved") {
      approved_by_roles = roles;
      received_approvals = length roles;
      approval_history = r.approval_history ++ history_line move;
    }
    else record r {
      actor_id = move.actor_id;
      received_approvals = length roles;
      approved_by_roles = roles;
      reason = some "not_enough_approvals";
      blockers = "not_enough_approvals" ∷ [];
      warnings =
          concat
            ("need_" ∷ str (minus r.required_approvals (length roles)) ∷ "_more_approval(s)" ∷ [])
          ∷ [];
    }

unfoldable pub carry_out : ApprovalRequest → Move → ApprovalRequest
unfolding approve moved
carry_out r move =
    if move.transition == "create"
    then moved r move "pending" r.decision "created"
    else if move.transition == "approve"
    then approve r move
    else if move.transition == "reject"
    then moved r move "rejected" (some "rejected") "rejected"
    else if move.transition == "expire"
    then moved r move "expired" (some "expired") "expired"
    else if move.transition == "cancel"
    then moved r move "cancelled" (some "cancelled") "cancelled"
    else if move.transition == "block"
    then moved r move "blocked" (some "blocked") "blocked"
    else moved r move "pending" r.decision "reopened"

unfoldable pub transition_fields : ApprovalRequest → Move → ApprovalRequest
unfolding copy_with_blocker carry_out allows_reopen
transition_fields r move =
    if not (mem move.transition transitions)
    then copy_with_blocker r move (concat ("invalid_transition:" ∷ move.transition ∷ []))
    else if (r.status == "blocked" && move.transition == "reopen")
        && not (allows_reopen move.context)
    then copy_with_blocker r move "blocked_cannot_reopen_without_explicit_flag"
    else if not (mem move.transition (valid_transitions r.status))
    then copy_with_blocker r move
        (concat ("transition_not_allowed:" ∷ move.transition ∷ "_from_" ∷ r.status ∷ []))
    else carry_out r move

module _ (py : Python) where
  unfoldable pub build_approval_request_lifecycle :
      Input Requirement → Details → Option Context → Bool → ApprovalRequest
  unfolding built build_response
  build_approval_request_lifecycle requirement d context include_details =
      build_response py include_details context (built d requirement)

  unfoldable pub transition_approval_request : Input ApprovalRequest → Move → ApprovalRequest
  unfolding transition_fields response_to_none build_response
  transition_approval_request missing move =
      build_response py move.include_details move.context
        (response_to_none move "missing_approval_request" "approval_request_missing")
  transition_approval_request malformed move =
      build_response py move.include_details move.context
        (response_to_none move "malformed_approval_request" "approval_request_malformed")
  transition_approval_request (given r) move =
      build_response py move.include_details move.context (transition_fields r move)
