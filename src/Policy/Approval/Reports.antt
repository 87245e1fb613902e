-- ===== src/Policy/Approval/Reports.antt =====
-- What the evaluation of approvals asks of the reports (backend/src/policy/approval_rules.py).
use grantlayer.Prelude.{
  ℕ, zero, suc, String, ◌≡◌, ◌≢◌, refl, ap, ◌∙◌, ◌↔◌, inl, inr, Bool, true, false, Option, none,
  some, arith, eq_iff, ◌==◌, Bool-cases,
}
use grantlayer.Platform.{Json, null, text, boolean, integer, real, array, nested}
use grantlayer.Policy.Approval.Inputs.{
  Python, ComplianceReport, EvidenceCompleteness, PermissionResult, complete, text_of, bool_of,
  has_errors, completeness, is_true, extract_compliance, extract_evidence, extract_permission,
}
use grantlayer.Policy.Approval.{lower_is}

-- It is no text that reads as this word in lower case.
pub IsNot : Python → String → Json → Type 0
IsNot py word j = (s : String) → j ≡ text s → py.lower s ≢ word

-- There is no report, or one of which neither the status is blocked nor the severity critical.
pub IsCompliant : Python → Option ComplianceReport → Type 0
IsCompliant py none = Unit
IsCompliant py (some r) = IsNot py "blocked" r.overall_status × IsNot py "critical" r.severity

-- There is a report, it is not marked as invalid, lists no errors, and is marked as complete.
pub IsComplete : Option EvidenceCompleteness → Type 0
IsComplete none = ⊥
IsComplete (some e) =
    (e.invalid ≢ boolean true) × (e.errors ≢ none → e.errors ≡ some 0) × (e.complete ≡ boolean true)

pub IsPermitted : Option PermissionResult → Type 0
IsPermitted none = ⊥
IsPermitted (some r) = r.allowed ≡ boolean true

bool_of-true : (j : Json) → (bool_of j ≡ some true) ↔ (j ≡ boolean true)
unfolding bool_of
bool_of-true (boolean b) = (λ h. ground arith, λ h. ground arith)
bool_of-true null = (λ h. absurd (ground arith), λ h. absurd (ground arith))
bool_of-true (text s) = (λ h. absurd (ground arith), λ h. absurd (ground arith))
bool_of-true (integer n) = (λ h. absurd (ground arith), λ h. absurd (ground arith))
bool_of-true real = (λ h. absurd (ground arith), λ h. absurd (ground arith))
bool_of-true array = (λ h. absurd (ground arith), λ h. absurd (ground arith))
bool_of-true nested = (λ h. absurd (ground arith), λ h. absurd (ground arith))

pub IsPermitted-iff :
    (o : Option PermissionResult) → (extract_permission o ≡ some true) ↔ IsPermitted o
unfolding extract_permission IsPermitted
IsPermitted-iff none = (λ h. absurd (ground arith), λ h. elim h [ ])
IsPermitted-iff (some r) = bool_of-true r.allowed

is_true_iff : (b : Option Bool) → (is_true b ≡ true) ↔ (b ≡ some true)
unfolding is_true
is_true_iff none = (λ h. absurd (ground arith), λ h. absurd (ground arith))
is_true_iff (some true) = (λ h. refl, λ h. refl)
is_true_iff (some false) = (λ h. absurd (ground arith), λ h. absurd (ground arith))

errors_iff : (o : Option ℕ) → (has_errors o ≡ false) ↔ (o ≢ none → o ≡ some 0)
unfolding has_errors
errors_iff none = (λ h k. absurd (k refl), λ h. refl)
errors_iff (some zero) = (λ h k. refl, λ h. refl)
errors_iff (some (suc n)) = (
  λ h. absurd (ground arith),
  λ h. absurd (let e = h (λ k. absurd (ground arith)) in ground arith),
)

completeness_iff : (b : Option Bool) → (completeness b ≡ complete) ↔ (b ≡ some true)
unfolding completeness
completeness_iff none = (λ h. absurd (ground arith), λ h. absurd (ground arith))
completeness_iff (some true) = (λ h. refl, λ h. refl)
completeness_iff (some false) = (λ h. absurd (ground arith), λ h. absurd (ground arith))

pub complete_iff :
    (o : Option EvidenceCompleteness) → (extract_evidence o ≡ complete) ↔ IsComplete o
unfolding extract_evidence IsComplete
complete_iff none = (λ h. absurd (ground arith), λ h. elim h [ ])
complete_iff (some e) =
    let marked = is_true_iff (bool_of e.invalid) in
    let marked' = bool_of-true e.invalid in
    let done_ = completeness_iff (bool_of e.complete) in
    let done' = bool_of-true e.complete in
    elim (Bool-cases (is_true (bool_of e.invalid))) [
      | inl m ↦ (λ h. absurd (ground (arith, m)), λ h. absurd (h.0 (marked'.0 (marked.0 m))))
      | inr m ↦ elim (Bool-cases (has_errors e.errors)) [
        | inl n ↦ (
          λ h. absurd (ground (arith, m, n)),
          λ h. absurd (let k = (errors_iff e.errors).1 h.1 in cc (k, n)),
        )
        | inr n ↦
            rw (m, n)
              (
                λ h. (
                  λ k. absurd (let l = marked.1 (marked'.1 k) in cc (l, m)),
                  (errors_iff e.errors).0 n,
                  done'.0 (done_.0 h),
                ),
                λ h. done_.1 (done'.1 h.2),
              )
      ]
    ]

IsNot-iff :
    (py : Python) (word : String) (j : Json)
    → (lower_is py word (text_of j) ≡ false) ↔ IsNot py word j
unfolding lower_is text_of IsNot
IsNot-iff py word null = (λ h s e. absurd (ground arith), λ h. refl)
IsNot-iff py word (text t) =
    let one = eq_iff (py.lower t) word in
    (
      λ h s e k.
          let same : t ≡ s = ground arith in let l = one.1 (ap py.lower same ∙ k) in cc (l, h),
      λ h. elim (Bool-cases (py.lower t == word)) [
        | inl e ↦ absurd (h t refl (one.0 e))
        | inr e ↦ e
      ],
    )
IsNot-iff py word (boolean b) = (λ h s e. absurd (ground arith), λ h. refl)
IsNot-iff py word (integer n) = (λ h s e. absurd (ground arith), λ h. refl)
IsNot-iff py word real = (λ h s e. absurd (ground arith), λ h. refl)
IsNot-iff py word array = (λ h s e. absurd (ground arith), λ h. refl)
IsNot-iff py word nested = (λ h s e. absurd (ground arith), λ h. refl)

pub IsCompliant-iff :
    (py : Python) (o : Option ComplianceReport)
    → ((lower_is py "blocked" (extract_compliance o).0 ≡ false)
        × (lower_is py "critical" (extract_compliance o).1 ≡ false))
      ↔ IsCompliant py o
unfolding extract_compliance lower_is IsCompliant
IsCompliant-iff py none = (λ h. tt, λ h. (refl, refl))
IsCompliant-iff py (some r) =
    let status = IsNot-iff py "blocked" r.overall_status in
    let severity = IsNot-iff py "critical" r.severity in
    (λ h. (status.0 h.0, severity.0 h.1), λ h. (status.1 h.0, severity.1 h.1))
