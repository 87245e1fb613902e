-- ===== src/Policy/Requirements/Reports.antt =====
-- What the evaluation of a policy pack reads of the reports of other components
-- (backend/src/policy/policy_requirements.py).
use grantlayer.Prelude.{String, Bool, true, false, not, ◌||◌, Option, none, some, List, ◌++◌, ◌==◌}
use grantlayer.Policy.Requirements.Rules.{note}

-- What another component reports: nothing, a value that is no dict, or a dict with what is read.
pub data Input (A : Type 0) : Type 0 where
  absent : Input A
  other : Input A
  dict : A → Input A

-- `blocking_gaps` says whether the entry is a list with items.
pub record ComplianceGaps : Type 0 where
  pub overall_status : Option String
  pub severity : Option String
  pub blocking_gaps : Bool

-- Of the evidence, whether `complete` is True; of the permission, whether `allowed` is False; of
-- the others the status, where it is a text.
pub record Upstream : Type 0 where
  pub evidence_completeness : Input Bool
  pub compliance_gap_report : Input ComplianceGaps
  pub permission_result : Input Bool
  pub approval_requirement : Input (Option String)
  pub approval_lifecycle : Input (Option String)
  pub decision_provenance : Input (Option String)
  pub auditor_export : Input (Option String)

unfoldable pub is_text : String → Option String → Bool
is_text s none = false
is_text s (some t) = t == s

unfoldable pub is_absent : {A : Type 0} → Input A → Bool
is_absent absent = true
is_absent _ = false

-- A dict that has the property.
unfoldable pub dict_where : {A : Type 0} → (A → Bool) → Input A → Bool
dict_where p (dict a) = p a
dict_where p _ = false

unfoldable pub is_blocked : Input (Option String) → Bool
unfolding dict_where is_text
is_blocked i = dict_where (is_text "blocked") i

unfoldable pub is_severe : ComplianceGaps → Bool
unfolding is_text
is_severe c = is_text "critical" c.severity || is_text "high" c.severity

unfoldable pub upstream_blockers : Upstream → List String
unfolding note dict_where is_blocked is_text
upstream_blockers u =
    note (dict_where (λ c. is_text "blocked" c.overall_status) u.compliance_gap_report)
      "compliance_blocked"
    ++ note (dict_where is_severe u.compliance_gap_report) "compliance_gap_critical_or_high"
    ++ note (dict_where (λ c. c.blocking_gaps) u.compliance_gap_report) "compliance_blocking_gaps"
    ++ note (dict_where (λ b. b) u.permission_result) "permission_denied"
    ++ note (is_blocked u.approval_requirement) "approval_requirement_blocked"
    ++ note (is_blocked u.approval_lifecycle) "approval_lifecycle_blocked"
    ++ note (is_blocked u.decision_provenance) "decision_provenance_blocked"
    ++ note (is_blocked u.auditor_export) "auditor_export_blocked"

unfoldable pub upstream_warnings : Upstream → List String
unfolding note dict_where
upstream_warnings u = note (dict_where not u.evidence_completeness) "evidence_incomplete"

unfoldable pub upstream_missing : Upstream → List String
unfolding note is_absent
upstream_missing u =
    note (is_absent u.evidence_completeness) "evidence_completeness"
    ++ note (is_absent u.compliance_gap_report) "compliance_gap_report"
    ++ note (is_absent u.permission_result) "permission_result"
    ++ note (is_absent u.approval_requirement) "approval_requirement"
    ++ note (is_absent u.approval_lifecycle) "approval_lifecycle"
    ++ note (is_absent u.decision_provenance) "decision_provenance"
    ++ note (is_absent u.auditor_export) "auditor_export"
