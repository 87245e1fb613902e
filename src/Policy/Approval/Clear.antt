-- ===== src/Policy/Approval/Clear.antt =====
-- When an evaluation asks for no approval, stated on its arguments
-- (backend/src/policy/approval_rules.py).
use grantlayer.Prelude.{
  ◌≡◌, ◌≢◌, refl, ap, ◌∙◌, ◌⊎◌, ◌↔◌, inl, inr, Bool, false, not, ◌&&◌, some, arith, Bool-cases,
}
use grantlayer.Result.{ok, ok-inj}
use grantlayer.Platform.{null}
use grantlayer.Policy.Approval.Inputs.{Python, Proposal, is_null}
use grantlayer.Policy.Approval.{Requirement, decide, read_signals, evaluate_approval_requirements}
use grantlayer.Policy.Approval.Decision.{IsCalm, decide-IsCalm}
use grantlayer.Policy.Approval.Reports.{
  IsCompliant, IsComplete, IsPermitted, IsPermitted-iff, complete_iff, IsCompliant-iff,
}
use grantlayer.Policy.Approval.Values.{
  IsNamed, IsLowRisk, AreMild, IsNamed-iff, risk_iff, flags_iff, normal, stated, fits, and_false,
}

-- The proposal has an action; its permission was given and its evidence is complete; the compliance
-- report is neither blocked nor critical; the risk is low or not stated; the amount is not stated, or
-- is a number that is not at least 10 000; and no flag asks for approval.
pub record IsClear (py : Python) (p : Proposal) : Type 0 where
  pub action : IsNamed py p.action
  pub permission : IsPermitted p.permission_result
  pub evidence : IsComplete p.evidence_completeness
  pub compliance : IsCompliant py p.compliance_report
  pub risk : IsLowRisk py p.risk_level
  pub amount :
      (p.amount ≡ null)
      ⊎ ((x : py.Float) × (p.amount ≢ null)
          × (py.float p.amount ≡ some x)
          × (py.overflows p.amount ≡ false)
          × (py.at_least x 100000 ≡ false)
          × (py.at_least x 10000 ≡ false))
  pub flags : AreMild py p.policy_flags

overflows : (py : Python) → Proposal → Bool
overflows py p = not (is_null p.amount) && py.overflows p.amount

-- A calm proposal whose amount can be converted is clear, and a clear one is calm.
IsCalm-IsClear :
    (py : Python) (p : Proposal) → ((overflows py p ≡ false) × IsCalm py p) ↔ IsClear py p
unfolding overflows
IsCalm-IsClear py p = (
  λ (no_, c). record {
    action = (IsNamed-iff py p.action).0 c.action;
    permission = (IsPermitted-iff p.permission_result).0 c.permission;
    evidence = (complete_iff p.evidence_completeness).0 c.evidence;
    compliance = (IsCompliant-iff py p.compliance_report).0 (c.status, c.severity);
    risk = (risk_iff py p.risk_level).0 c.risk;
    amount = elim c.amount [
      | inl e ↦ inl e
      | inr (x, e, k, l) ↦
          let (some_, same) = stated py p.amount x e in
          inr (x, some_, same, fits py p.amount some_ no_, k, l)
    ];
    flags = (flags_iff py p.policy_flags).0 (c.four_eyes_flag, c.approval_flag);
  },
  λ c.
      let compliance = (IsCompliant-iff py p.compliance_report).1 c.compliance in
      let mild = (flags_iff py p.policy_flags).1 c.flags in
      (
        elim c.amount [
          | inl e ↦ rw e refl
          | inr (x, z, e, o, k, l) ↦ rw o (and_false (not (is_null p.amount)))
        ],
        record {
          action = (IsNamed-iff py p.action).1 c.action;
          permission = (IsPermitted-iff p.permission_result).1 c.permission;
          evidence = (complete_iff p.evidence_completeness).1 c.evidence;
          status = compliance.0;
          severity = compliance.1;
          risk = (risk_iff py p.risk_level).1 c.risk;
          amount = elim c.amount [
            | inl e ↦ inl e
            | inr (x, z, e, o, k, l) ↦ inr (x, normal py p.amount z ∙ e, k, l)
          ];
          four_eyes_flag = mild.0;
          approval_flag = mild.1;
        },
      ),
)

-- An evaluation returns, and says that no approval is needed, exactly for the proposals that are
-- clear: an action is named, its permission was given and its evidence is complete and valid, the
-- compliance report is neither blocked nor critical, the risk is low or not stated, the amount is
-- not stated or a number that is not at least 10 000, and no flag asks for approval.
pub evaluate_approval_requirements-IsClear :
    (py : Python) (p : Proposal)
    → ((q : Requirement) × (evaluate_approval_requirements py p ≡ ok q)
        × (q.decision ≡ "no_approval_required"))
      ↔ IsClear py p
unfolding evaluate_approval_requirements overflows
evaluate_approval_requirements-IsClear py p =
    let calm = decide-IsCalm py p in
    let clear = IsCalm-IsClear py p in
    elim (Bool-cases (overflows py p)) [
      | inl e ↦ (
        λ (q, h, d). absurd (ground (arith, e, h)),
        λ c. absurd (let k = (clear.1 c).0 in cc (k, e)),
      )
      | inr e ↦ (
        λ (q, h, d).
            let same = ok-inj (rw (e, evaluate_approval_requirements) at h) in
            clear.0 (e, calm.0 (ap (λ (x : Requirement). x.decision) same ∙ d)),
        λ c.
            rw (e, evaluate_approval_requirements)
              (decide (read_signals py p), refl, calm.1 (clear.1 c).1),
      )
    ]
