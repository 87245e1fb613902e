-- ===== src/Policy/Lifecycle/FourEyes.antt =====
-- From the evaluation of a proposal to its approval (backend/src/policy/approval_rules.py and
-- approval_lifecycle.py).
use grantlayer.Prelude.{
  ℕ, String, ◌≡◌, refl, sym, ◌∙◌, not, ◌&&◌, ◌⊎◌, inl, inr, Bool, true, false, Option, some, List,
  [], arith, eq_iff, ◌==◌, Bool-cases,
}
use mathlib.Core.Path.{subst}
use grantlayer.Policy.Approval.Inputs.{Python, Proposal, is_null}
use grantlayer.Result.{ok, ok-inj}
use grantlayer.Policy.Approval.{
  Signals, Requirement, is_blocked, needs_four_eyes, needs_one_approval, decide, outcome,
  read_signals, evaluate_approval_requirements, four_eyes_roles, one_approval_roles,
}
use grantlayer.Policy.Lifecycle.{
  ApprovalRequest, Approver, Context, given, normalise_approvers, build_response,
}
use grantlayer.Policy.Lifecycle.Operations.{
  Details, fields_of, built, build_approval_request_lifecycle,
}
use grantlayer.Policy.Lifecycle.Counting.{HasRole, role_of, normalise-Any, one_of_one, two_of_two}
use grantlayer.Policy.Lifecycle.Approved.{Reach, Holds, Reach-Holds}

-- The four outcomes of an evaluation.
decide-cases :
    (s : Signals)
    → (decide s ≡ outcome s false 0 [] "blocked" "blocked_by_policy")
      ⊎ (decide s
          ≡ outcome s true 2 four_eyes_roles "four_eyes_required" "four_eyes_approval_required")
      ⊎ (decide s ≡ outcome s true 1 one_approval_roles "approval_required" "approval_required")
      ⊎ (decide s ≡ outcome s false 0 [] "no_approval_required" "no_approval_required")
unfolding decide
decide-cases s = elim (Bool-cases (is_blocked s)) [
  | inl b ↦ inl (rw b refl)
  | inr b ↦ elim (Bool-cases (needs_four_eyes s)) [
    | inl f ↦ inr (inl (rw (b, f) refl))
    | inr f ↦ elim (Bool-cases (needs_one_approval s)) [
      | inl o ↦ inr (inr (inl (rw (b, f, o) refl)))
      | inr o ↦ inr (inr (inr (rw (b, f, o) refl)))
    ]
  ]
]

module _ (py : Python) (d : Details) (context : Option Context) (include_details : Bool) where
  fields-Holds :
      (status : String) (n : ℕ) (roles : List String) (decision reason : String)
      (blockers warnings : List String)
      → (status == "approved") ≡ false
      → Holds n roles d.approvers (
          build_response py include_details context
            (fields_of d status n roles decision reason blockers warnings))
  unfolding build_response fields_of
  fields-Holds status n roles decision reason blockers warnings h = record {
    approvals = refl;
    roles = refl;
    only = λ s k.
        let P = λ (a : Approver). role_of a ≡ some s in
        normalise-Any P d.approvers (normalise-Any P (normalise_approvers d.approvers) k);
    backed = λ e. absurd (cc ((eq_iff status "approved").1 e, h));
  }

  -- The request that is built from a requirement holds its terms.
  module _ (s : Signals) where
    abbrev build : Requirement → ApprovalRequest
    build q = build_approval_request_lifecycle py (given q) d context include_details

    none-Holds :
        (decision reason : String)
        → (decision ≡ "blocked") ⊎ (decision ≡ "no_approval_required")
        → Holds 0 [] d.approvers (build (outcome s false 0 [] decision reason))
    unfolding build_approval_request_lifecycle built outcome
    none-Holds decision reason (inl e) =
        rw e (fields-Holds "blocked" 0 [] "blocked" reason _ _ refl)
    none-Holds decision reason (inr e) =
        rw e (fields-Holds "not_required" 0 [] "no_approval_required" reason _ _ refl)

    two-Holds :
        (reason : String)
        → Holds 2 four_eyes_roles d.approvers
            (build (outcome s true 2 four_eyes_roles "four_eyes_required" reason))
    unfolding build_approval_request_lifecycle built outcome
    two-Holds reason = fields-Holds "pending" 2 four_eyes_roles "four_eyes_required" reason _ _ refl

    one-Holds :
        (reason : String)
        → Holds 1 one_approval_roles d.approvers
            (build (outcome s true 1 one_approval_roles "approval_required" reason))
    unfolding build_approval_request_lifecycle built outcome
    one-Holds reason =
        fields-Holds "pending" 1 one_approval_roles "approval_required" reason _ _ refl

-- What an evaluation returns is decided on its signals.
evaluated :
    (py : Python) (p : Proposal) (q : Requirement)
    → evaluate_approval_requirements py p ≡ ok q
    → q ≡ decide (read_signals py p)
unfolding evaluate_approval_requirements
evaluated py p q h = elim (Bool-cases (not (is_null p.amount) && py.overflows p.amount)) [
  | inl e ↦ absurd (ground (arith, e))
  | inr e ↦ sym (ok-inj (rw (e, evaluate_approval_requirements) at h))
]

-- What an approval of a request for a proposal means, by the decision on it.
abbrev pub IsApprovedBy : Requirement → List Approver → Type 0
IsApprovedBy q approvers =
    ((q.decision ≡ "four_eyes_required")
      × HasRole "grant_admin" approvers
      × HasRole "owner" approvers)
    ⊎ ((q.decision ≡ "approval_required") × HasRole "grant_admin" approvers)

-- A request that is built from the evaluation of a proposal, where that returns, and is approved
-- after any transitions was for a proposal that needed approval; where it needed four eyes, a dict with the role
-- grant_admin and one with the role owner were among the approvers of the build, and else one with
-- the role grant_admin.
pub approved-IsApprovedBy :
    (py : Python) (p : Proposal) (d : Details) (context : Option Context) (include_details : Bool)
    (q : Requirement) (r : ApprovalRequest)
    → evaluate_approval_requirements py p ≡ ok q
    → Reach py (build_approval_request_lifecycle py (given q) d context include_details) r
    → r.status ≡ "approved"
    → IsApprovedBy q d.approvers
unfolding outcome
approved-IsApprovedBy py p d context include_details q r is_ok reach e =
    let s = read_signals py p in
    let is_decide = evaluated py p q is_ok in
    let T = λ (q : Requirement).
      Reach py (build_approval_request_lifecycle py (given q) d context include_details) r
      → IsApprovedBy q d.approvers in
    let none_ : (decision reason : String)
        → (decision ≡ "blocked") ⊎ (decision ≡ "no_approval_required")
        → T (outcome s false 0 [] decision reason) =
      λ decision reason which run.
        let start = none-Holds py d context include_details s decision reason which in
        let h = Reach-Holds 0 [] d.approvers py start run in
        absurd (omega (arith, (h.backed e).positive)) in
    let two : T
        (outcome s true 2 four_eyes_roles "four_eyes_required" "four_eyes_approval_required") =
      λ run.
        let start = two-Holds py d context include_details s "four_eyes_approval_required" in
        let h = Reach-Holds 2 four_eyes_roles d.approvers py start run in
        let b = h.backed e in
        let both = two_of_two "grant_admin" "owner" d.approvers b.roles b.counted b.enough in
        inl (refl, both.0, both.1) in
    let one : T (outcome s true 1 one_approval_roles "approval_required" "approval_required") =
      λ run.
        let start = one-Holds py d context include_details s "approval_required" in
        let h = Reach-Holds 1 one_approval_roles d.approvers py start run in
        let b = h.backed e in
        inr (refl, one_of_one "grant_admin" d.approvers b.roles b.counted b.enough) in
    elim (decide-cases s) [
      | inl c ↦ subst T (sym (is_decide ∙ c)) (none_ "blocked" "blocked_by_policy" (inl refl)) reach
      | inr (inl c) ↦ subst T (sym (is_decide ∙ c)) two reach
      | inr (inr (inl c)) ↦ subst T (sym (is_decide ∙ c)) one reach
      | inr (inr (inr c)) ↦
          subst T (sym (is_decide ∙ c))
            (none_ "no_approval_required" "no_approval_required" (inr refl)) reach
    ]
