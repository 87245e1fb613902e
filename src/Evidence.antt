-- ===== src/Evidence.antt =====
-- The score of the evidence of an execution (backend/src/evidence/evidence_completeness.py), from
-- the auditor report on it; what the result echoes of the report is left out.
pub mod Complete
use grantlayer.Prelude.{
  ℕ, ◌+◌, ◌-◌, String, Bool, true, false, not, ◌&&◌, ◌||◌, Option, none, some, List, [], ◌∷◌, ◌++◌,
  ◌==◌, is_some, length, ltb, leb, mem, if◌then◌else◌,
}
use Prim.Native.Nat.{◌*◌, min}

-- What is read of the report: whether it has an execution and evidence, the status of the
-- verification, the number of provenance events, the findings and the warnings.
pub record AuditorReport : Type 0 where
  pub execution_present : Bool
  pub evidence_present : Bool
  pub verification_status : Option String
  pub provenance_events : ℕ
  pub findings : List String
  pub warnings : List String

-- Python's `s.lower().startswith(prefix)`.
abbrev pub StartsWith : Type 0
StartsWith = String → String → Bool

abbrev pub critical_finding_prefixes : List String
critical_finding_prefixes =
    "execution_denied" ∷ "grant_revoked" ∷ "grant_expired" ∷ "grant_usage_exhausted"
    ∷ "grant_unsigned" ∷ "grant_request_denied" ∷ "grant_request_revoked" ∷ []

-- A text, where it is to be appended.
unfoldable pub note : Bool → String → List String
note true s = s ∷ []
note false s = []

unfoldable pub is_status : String → Option String → Bool
is_status s none = false
is_status s (some t) = t == s

-- `verification_status in (None, "missing_data", "unsupported_version")`
unfoldable pub is_unverified : Option String → Bool
is_unverified none = true
is_unverified (some t) = t == "missing_data" || t == "unsupported_version"

unfoldable pub is_empty_list : List String → Bool
is_empty_list [] = true
is_empty_list (x ∷ xs) = false

module _ (starts : StartsWith) where
  -- The first prefix that a finding has.
  unfoldable pub gap_of : String → List String → Option String
  gap_of finding [] = none
  gap_of finding (prefix ∷ rest) =
      let later = gap_of finding rest in if starts finding prefix then some prefix else later

  unfoldable pub has_critical_finding : List String → Bool
  has_critical_finding [] = false
  has_critical_finding (f ∷ findings) =
      let rest = has_critical_finding findings in
      if is_some (gap_of f critical_finding_prefixes) then true else rest

  unfoldable pub add_gap : Option String → List String → List String
  add_gap none seen = seen
  add_gap (some g) seen = if mem g seen then seen else seen ++ g ∷ []

  unfoldable pub gaps_from : List String → List String → List String
  unfolding add_gap
  gaps_from seen [] = seen
  gaps_from seen (f ∷ findings) =
      gaps_from (add_gap (gap_of f critical_finding_prefixes) seen) findings

  unfoldable pub extract_critical_gaps : List String → List String
  unfolding gaps_from
  extract_critical_gaps findings = gaps_from [] findings

  -- What the report loses.
  unfoldable pub penalty : AuditorReport → ℕ
  unfolding is_status is_unverified
  penalty r =
      (if r.execution_present then 0 else 10)
      + (if r.evidence_present then 0 else 20)
      + (if not r.evidence_present
          then 0
          else if is_status "invalid" r.verification_status
          then 25
          else if is_unverified r.verification_status
          then 15
          else 0)
      + (if ltb r.provenance_events 1 then 10 else 0)
      + (if has_critical_finding r.findings
          then 15 * length (extract_critical_gaps r.findings)
          else 0)

  -- `max(0, min(100, score))`: the score only falls from 100, and the difference stops at 0.
  unfoldable pub completeness_score : AuditorReport → ℕ
  unfolding penalty
  completeness_score r = min 100 (100 - penalty r)

  unfoldable pub own_gaps : AuditorReport → List String
  unfolding note is_status is_unverified
  own_gaps r =
      note (not r.execution_present) "missing_execution_context"
      ++ note (not r.evidence_present) "missing_evidence"
      ++ note (r.evidence_present && is_status "invalid" r.verification_status) "invalid_evidence"
      ++ note
          (r.evidence_present
            && (not (is_status "invalid" r.verification_status)
                && is_unverified r.verification_status))
          "unverified_evidence"
      ++ note (ltb r.provenance_events 1) "missing_provenance_events"

  unfoldable pub missing_evidence : AuditorReport → List String
  unfolding note
  missing_evidence r =
      note (not r.execution_present) "execution_context"
      ++ note (not r.evidence_present) "evidence_bundle"
      ++ note (ltb r.provenance_events 1) "provenance_events"

  -- The loop over the warnings.
  unfoldable pub add_warning : String → List String → List String
  unfolding note
  add_warning w gaps =
      gaps
      ++ note (w == "missing_evidence" && not (mem "missing_evidence" gaps)) "missing_evidence"
      ++ note (w == "unverified_evidence" && not (mem "unverified_evidence" gaps))
          "unverified_evidence"

  unfoldable pub add_warnings : List String → List String → List String
  unfolding add_warning
  add_warnings [] gaps = gaps
  add_warnings (w ∷ warnings) gaps = add_warnings warnings (add_warning w gaps)

  unfoldable pub compliance_gaps : AuditorReport → List String
  unfolding own_gaps add_warnings
  compliance_gaps r = add_warnings r.warnings (own_gaps r)

  unfoldable pub completeness_status : AuditorReport → String
  completeness_status r =
      if ltb (completeness_score r) 50
        || ((r.evidence_present && is_status "invalid" r.verification_status)
            || has_critical_finding r.findings)
      then "critical"
      else if leb 90 (completeness_score r)
          && (not (has_critical_finding r.findings) && is_empty_list (compliance_gaps r))
      then "complete"
      else "incomplete"

  unfoldable pub audit_readiness : AuditorReport → String
  audit_readiness r =
      if completeness_status r == "complete"
      then "ready"
      else if completeness_status r == "critical"
      then "blocked"
      else "not_ready"
