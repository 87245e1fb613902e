-- ===== src/Evidence/Complete.antt =====
-- When the evidence of an execution is ready (backend/src/evidence/evidence_completeness.py).
use grantlayer.Prelude.{
  ◌≤◌, String, ◌≡◌, ◌≢◌, refl, ◌↔◌, inl, inr, Bool-cases, is_some, Option, none, some, true, false,
  not, ◌&&◌, ◌||◌, List, [], ◌∷◌, arith, eq_iff, ◌==◌, ltb, leb, any_where, All, if-either,
  or-false,
}
use grantlayer.Evidence.{
  AuditorReport, StartsWith, gap_of, critical_finding_prefixes, note, is_status, is_unverified,
  has_critical_finding, penalty, completeness_score, own_gaps, add_warning, add_warnings,
  compliance_gaps, is_empty_list, completeness_status, audit_readiness,
}

-- A finding that starts with none of the words that make it critical.
abbrev pub IsHarmless : StartsWith → String → Type 0
IsHarmless starts finding =
    All (λ prefix. starts finding prefix ≡ false)
      ("execution_denied" ∷ "grant_revoked" ∷ "grant_expired" ∷ "grant_usage_exhausted"
        ∷ "grant_unsigned" ∷ "grant_request_denied" ∷ "grant_request_revoked" ∷ [])

-- The verification has a status that is neither a failure nor a lack.
abbrev pub IsVerified : Option String → Type 0
IsVerified status =
    (s : String) × (status ≡ some s)
    × (s ≢ "invalid")
    × (s ≢ "missing_data")
    × (s ≢ "unsupported_version")

-- The report has an execution, evidence that is verified, and events; no finding is critical, and
-- no warning is about the evidence.
pub record IsReady (starts : StartsWith) (r : AuditorReport) : Type 0 where
  pub execution : r.execution_present ≡ true
  pub evidence : r.evidence_present ≡ true
  pub verified : IsVerified r.verification_status
  pub events : 1 ≤ r.provenance_events
  pub findings : All (IsHarmless starts) r.findings
  pub warnings :
      All
        (λ w. ((w == "missing_evidence") ≡ false) × ((w == "unverified_evidence") ≡ false))
        r.warnings

IsVerified-iff :
    (o : Option String)
    → ((is_status "invalid" o ≡ false) × (is_unverified o ≡ false)) ↔ IsVerified o
unfolding is_status is_unverified
IsVerified-iff none =
    (λ h. absurd (let e = h.1 in ground arith), λ h. absurd (let e = h.1 in ground arith))
IsVerified-iff (some s) =
    let a = eq_iff s "invalid" in
    let b = eq_iff s "missing_data" in
    let c = eq_iff s "unsupported_version" in
    (
      λ h.
          let x = h.0 in
          let y = h.1 in
          (
            s,
            refl,
            λ e. absurd (ground (arith, a)),
            λ e. absurd (ground (arith, b)),
            λ e. absurd (ground (arith, c)),
          ),
      λ (t, e, f, g, k). (ground (arith, a), ground (arith, b, c)),
    )

module _ (starts : StartsWith) where
  gap_of-none :
      (finding : String) (prefixes : List String)
      → (is_some (gap_of starts finding prefixes) ≡ false)
        ↔ All (λ prefix. starts finding prefix ≡ false) prefixes
  unfolding gap_of
  gap_of-none finding [] = (λ h. tt, λ h. refl)
  gap_of-none finding (prefix ∷ rest) =
      let later = gap_of-none finding rest in
      elim (Bool-cases (starts finding prefix)) [
        | inl e ↦ rw e (λ h. absurd (ground arith), λ h. absurd (let k = h.0 in ground arith))
        | inr e ↦ rw e (λ h. (refl, later.0 h), λ h. later.1 h.1)
      ]

  findings-IsHarmless :
      (findings : List String)
      → (has_critical_finding starts findings ≡ false) ↔ All (IsHarmless starts) findings
  unfolding has_critical_finding
  findings-IsHarmless [] = (λ h. tt, λ h. refl)
  findings-IsHarmless (f ∷ findings) =
      let one = gap_of-none f critical_finding_prefixes in
      let rest = findings-IsHarmless findings in
      elim (Bool-cases (is_some (gap_of starts f critical_finding_prefixes))) [
        | inl e ↦ rw e (λ h. absurd (ground arith), λ h. absurd (let k = one.1 h.0 in cc (e, k)))
        | inr e ↦ rw e (λ h. (one.0 e, rest.0 h), λ h. rest.1 h.1)
      ]

  own_gaps-ready :
      (r : AuditorReport)
      → (own_gaps starts r ≡ []) ↔ (
          (r.execution_present ≡ true)
          × (r.evidence_present ≡ true)
          × (is_status "invalid" r.verification_status ≡ false)
          × (is_unverified r.verification_status ≡ false)
          × (1 ≤ r.provenance_events))
  unfolding own_gaps note
  own_gaps-ready r = (λ h. ground arith, λ h. ground arith)

  -- A warning about the evidence leaves a gap.
  add_warning-none :
      (w : String) (gaps : List String)
      → (add_warning starts w gaps ≡ []) ↔ (
          (gaps ≡ [])
          × ((w == "missing_evidence") ≡ false)
          × ((w == "unverified_evidence") ≡ false))
  unfolding add_warning note any_where
  add_warning-none w [] = (λ h. ground arith, λ h. ground arith)
  add_warning-none w (g ∷ gaps) = (λ h. absurd (ground arith), λ h. absurd (ground arith))

  add_warnings-none :
      (warnings gaps : List String)
      → (add_warnings starts warnings gaps ≡ []) ↔ (
          (gaps ≡ [])
          × All
              (λ w. ((w == "missing_evidence") ≡ false) × ((w == "unverified_evidence") ≡ false))
              warnings)
  unfolding add_warnings
  add_warnings-none [] gaps = (λ h. (h, tt), λ h. h.0)
  add_warnings-none (w ∷ warnings) gaps =
      let rest = add_warnings-none warnings (add_warning starts w gaps) in
      let one = add_warning-none w gaps in
      (
        λ h. let k = rest.0 h in let o = one.0 k.0 in (o.0, ((o.1, o.2), k.1)),
        λ h. rest.1 (one.1 (h.0, h.1.0.0, h.1.0.1), h.1.1),
      )

  is_empty_list-none : (xs : List String) → (is_empty_list xs ≡ true) ↔ (xs ≡ [])
  unfolding is_empty_list
  is_empty_list-none [] = (λ h. refl, λ h. refl)
  is_empty_list-none (x ∷ xs) = (λ h. absurd (ground arith), λ h. absurd (ground arith))

  -- A ready report loses nothing.
  IsReady-score : (r : AuditorReport) → IsReady starts r → completeness_score starts r ≡ 100
  unfolding completeness_score penalty
  IsReady-score r h =
      let some_ : ltb r.provenance_events 1 ≡ false = let e = h.events in ground arith in
      let v = (IsVerified-iff r.verification_status).1 h.verified in
      let harmless = (findings-IsHarmless r.findings).1 h.findings in
      rw (h.execution, h.evidence, v.0, v.1, some_, harmless) refl

  IsReady-gaps : (r : AuditorReport) → IsReady starts r → compliance_gaps starts r ≡ []
  unfolding compliance_gaps
  IsReady-gaps r h =
      let v = (IsVerified-iff r.verification_status).1 h.verified in
      (add_warnings-none r.warnings (own_gaps starts r)).1
        ((own_gaps-ready r).1 (h.execution, h.evidence, v.0, v.1, h.events), h.warnings)

  gaps-IsReady :
      (r : AuditorReport)
      → compliance_gaps starts r ≡ []
      → has_critical_finding starts r.findings ≡ false
      → IsReady starts r
  unfolding compliance_gaps
  gaps-IsReady r h findings =
      let k = (add_warnings-none r.warnings (own_gaps starts r)).0 h in
      let own = (own_gaps-ready r).0 k.0 in
      record {
        execution = own.0;
        evidence = own.1;
        verified = (IsVerified-iff r.verification_status).0 (own.2, own.3);
        events = own.4;
        findings = (findings-IsHarmless r.findings).0 findings;
        warnings = k.1;
      }

  status-IsReady :
      (r : AuditorReport) → (completeness_status starts r ≡ "complete") ↔ IsReady starts r
  unfolding completeness_status
  status-IsReady r =
      let critical =
        ltb (completeness_score starts r) 50
        || ((r.evidence_present && is_status "invalid" r.verification_status)
            || has_critical_finding starts r.findings) in
      let complete =
        leb 90 (completeness_score starts r)
        && (not (has_critical_finding starts r.findings)
            && is_empty_list (compliance_gaps starts r)) in
      let P = λ (s : String). s ≡ "complete" → IsReady starts r in
      (
        if-either P critical (λ _ h. absurd (cc ((eq_iff "critical" "complete").1 h)))
            (λ no_.
              if-either P complete
                (λ yes_ h.
                  let (low, bad) = or-false (ltb (completeness_score starts r) 50) _ no_ in
                  let (invalid, findings) =
                    or-false (r.evidence_present && is_status "invalid" r.verification_status) _
                      bad in
                  gaps-IsReady r ((is_empty_list-none (compliance_gaps starts r)).0 (ground arith))
                    findings)
                (λ _ h. absurd (cc ((eq_iff "incomplete" "complete").1 h)))),
        λ h.
            let score = IsReady-score r h in
            let gaps = (is_empty_list-none (compliance_gaps starts r)).1 (IsReady-gaps r h) in
            let harmless = (findings-IsHarmless r.findings).1 h.findings in
            let v = (IsVerified-iff r.verification_status).1 h.verified in
            rw (gaps, score, harmless, v.0, h.evidence) refl,
      )

-- An execution is reported as ready for audit exactly where its report has the execution, evidence
-- whose verification has a status that is none of invalid, missing_data and unsupported_version, and
-- events, where no finding starts with one of the seven critical words, and no warning is about the
-- evidence.
pub audit_readiness-IsReady :
    (starts : StartsWith) (r : AuditorReport)
    → (audit_readiness starts r ≡ "ready") ↔ IsReady starts r
unfolding audit_readiness
audit_readiness-IsReady starts r =
    let status = completeness_status starts r in
    let P = λ (s : String). s ≡ "ready" → IsReady starts r in
    (
      if-either P (status == "complete")
          (λ e _. (status-IsReady starts r).0 ((eq_iff status "complete").0 e))
          (λ _.
            if-either P (status == "critical") (λ _ h. absurd (cc ((eq_iff "blocked" "ready").1 h)))
              (λ _ h. absurd (cc ((eq_iff "not_ready" "ready").1 h)))),
      λ h. rw ((status-IsReady starts r).1 h) refl,
    )
