-- ===== src/Examples/Approvals.antt =====
-- Runs of the approval rules and of the life of an approval request.
use grantlayer.Prelude.{
  ℕ, String, ◌≡◌, refl, ◌↔◌, true, false, none, some, Option, [], ◌∷◌, ◌==◌, leb, any_where,
  sort_by,
}
use grantlayer.Prelude.Int.{pos}
use grantlayer.Platform.{Json, text, integer, boolean}
use grantlayer.Policy.Approval.Inputs.{
  Python, Proposal, no_flags, extract_permission, extract_compliance, extract_evidence, is_text,
  normalize_risk_level, normalize_amount,
}
use grantlayer.Result.{ok}
use grantlayer.Policy.Approval.{
  Requirement, decide, read_signals, evaluate_approval_requirements, needs_four_eyes,
}
use grantlayer.Policy.Approval.Clear.{IsClear, evaluate_approval_requirements-IsClear}
use grantlayer.Policy.Lifecycle.{
  valid_transitions, approved_roles, ApprovalRequest, dict_approver, other_approver, given,
}
use grantlayer.Policy.Lifecycle.Operations.{
  Details, Move, build_approval_request_lifecycle, transition_approval_request,
}
use grantlayer.Policy.Lifecycle.Approved.{here, next, Reach-approved}
use grantlayer.Policy.Lifecycle.FourEyes.{IsApprovedBy, approved-IsApprovedBy}

abbrev pub number : Json → Option ℕ
number (integer (pos n)) = some n
number _ = none

-- Texts are trimmed and in lower case; amounts are whole.
abbrev plain : Python
plain = record {
  strip = λ s. s;
  lower = λ s. s;
  contains = λ fragment s. fragment == s;
  Float = ℕ;
  float = number;
  overflows = λ j. false;
  at_least = λ x n. leb n x;
}

abbrev payment : Proposal
payment = record {
  action = text "pay";
  amount = integer (pos 250000);
  risk_level = text "low";
  compliance_report = none;
  evidence_completeness =
      some (record { invalid = boolean false; errors = some 0; complete = boolean true });
  permission_result = some (record { allowed = boolean true });
  policy_flags = no_flags;
}

evaluate_approval_requirements-IsClear_example :
    ((q : Requirement) × (evaluate_approval_requirements plain payment ≡ ok q)
      × (q.decision ≡ "no_approval_required"))
    ↔ IsClear plain payment
evaluate_approval_requirements-IsClear_example =
    evaluate_approval_requirements-IsClear plain payment

abbrev needed : Requirement
needed = decide (read_signals plain payment)

payment-needed : evaluate_approval_requirements plain payment ≡ ok needed
unfolding evaluate_approval_requirements
payment-needed = refl

payment-decision : needed.decision ≡ "four_eyes_required"
unfolding decide read_signals extract_permission extract_compliance extract_evidence needs_four_eyes
    is_text normalize_risk_level normalize_amount
payment-decision = refl

abbrev details : Details
details = record {
  request_id = some "request-1";
  action = text "pay";
  actor_id = some "ann";
  subject_id = some "ann";
  requested_by = some "ann";
  approvers =
      dict_approver "{\"role\": \"owner\"}" (some "owner")
      ∷ dict_approver "{\"role\": \"grant_admin\"}" (some "grant_admin")
      ∷ other_approver "bob"
      ∷ [];
  created_at = some "2026-03-01T12:00:00Z";
  expires_at = none;
}

abbrev do_ : String → Move
do_ transition = record {
  transition = transition;
  actor_id = some "root";
  reason = none;
  at = none;
  context = none;
  include_details = true;
}

abbrev pending : ApprovalRequest
pending = build_approval_request_lifecycle plain (given needed) details none true

abbrev approved : ApprovalRequest
approved = transition_approval_request plain (given pending) (do_ "approve")

approved-status : approved.status ≡ "approved"
unfolding transition_approval_request build_approval_request_lifecycle any_where decide read_signals
    extract_permission extract_compliance extract_evidence needs_four_eyes is_text
    normalize_risk_level normalize_amount valid_transitions approved_roles sort_by
approved-status = refl

approved-IsApprovedBy_example : IsApprovedBy needed details.approvers
approved-IsApprovedBy_example =
    approved-IsApprovedBy plain payment details none true needed approved payment-needed
      (next (do_ "approve") here) approved-status

Reach-approved_example :
    (transition_approval_request plain (given approved) (do_ "cancel")).status ≡ "approved"
Reach-approved_example =
    Reach-approved plain approved
      (transition_approval_request plain (given approved) (do_ "cancel")) (next (do_ "cancel") here)
      approved-status
