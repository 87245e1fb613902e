-- ===== src/Policy/Requirements/Passed.antt =====
-- When a subject passes a policy pack (backend/src/policy/policy_requirements.py).
use grantlayer.Prelude.{ℕ, ◌≡◌, false, not, Option}
use grantlayer.Policy.Requirements.Rules.{Reader, PolicyPack, Subject, types_of, codes_of}
use grantlayer.Policy.Requirements.Reports.{Upstream, is_text, dict_where, is_blocked, is_severe}
use grantlayer.Policy.Requirements.Items.{Each, IsPresent, IsAllowed}
use grantlayer.Policy.Requirements.Limits.{IsAhead, IsInBudget}

-- None of the reports that are dicts objects: the evidence is complete; the compliance report is
-- neither blocked nor severe nor has blocking gaps; the permission is not refused; and the approval
-- requirement, its lifecycle, the provenance and the export are not blocked.
pub record IsUnblocked (u : Upstream) : Type 0 where
  pub evidence : dict_where not u.evidence_completeness ≡ false
  pub compliance :
      dict_where (λ c. is_text "blocked" c.overall_status) u.compliance_gap_report ≡ false
  pub severity : dict_where is_severe u.compliance_gap_report ≡ false
  pub gaps : dict_where (λ c. c.blocking_gaps) u.compliance_gap_report ≡ false
  pub permission : dict_where (λ b. b) u.permission_result ≡ false
  pub requirement : is_blocked u.approval_requirement ≡ false
  pub lifecycle : is_blocked u.approval_lifecycle ≡ false
  pub provenance : is_blocked u.decision_provenance ≡ false
  pub export : is_blocked u.auditor_export ≡ false

module _ (r : Reader) where
  -- What the pack asks for, of the subject and of the reports: every kind of evidence, none of the
  -- excluded codes, no deadline passed or malformed, an amount within the limits, and no objection.
  pub record IsMet (now : ℕ) (pack : PolicyPack) (subject : Option Subject) (u : Upstream)
      : Type 0 where
    pub evidence : Each (IsPresent (types_of subject)) pack.required_evidence
    pub exclusions : Each (IsAllowed (codes_of subject)) pack.exclusions
    pub deadlines : Each (IsAhead r now) pack.deadlines
    pub amount : IsInBudget r pack.amount_limits subject
    pub upstream : IsUnblocked u
