-- ===== src/Policy/Lifecycle/Approved.antt =====
-- How an approval request comes to be approved, and that it stays so
-- (backend/src/policy/approval_lifecycle.py).
use grantlayer.Prelude.{
  mem, ℕ, ◌≤◌, ◌<◌, String, ◌≡◌, refl, sym, ◌∙◌, ◌⊎◌, inl, inr, Bool, true, false, not, ◌&&◌,
  Option, some, List, arith, eq_iff, ◌==◌, length, ltb, leb, any_where, All-map, if◌then◌else◌,
  if-either,
}
use grantlayer.Policy.Approval.Inputs.{Python}
use grantlayer.Policy.Lifecycle.{
  ApprovalRequest, Approver, given, transitions, valid_transitions, approved_roles, build_response,
}
use grantlayer.Policy.Lifecycle.Operations.{
  Move, copy_with_blocker, moved, approve, carry_out, transition_fields, allows_reopen,
  transition_approval_request,
}
use grantlayer.Policy.Lifecycle.Counting.{
  HasRole, role_of, IsCounted, approved_roles-IsCounted, normalise-Any,
}

-- Enough approvals: the roles of distinct required approvers, no fewer than required, which is not
-- zero.
pub record IsEndorsed (r : ApprovalRequest) : Type 0 where
  pub count : r.required_approvals ≤ length (approved_roles r.approvers r.required_roles)
  pub positive : 0 < r.required_approvals

-- What every transition keeps.
pub record Keeps (r r' : ApprovalRequest) : Type 0 where
  pub required_approvals : r'.required_approvals ≡ r.required_approvals
  pub required_roles : r'.required_roles ≡ r.required_roles
  pub approvers : r'.approvers ≡ r.approvers

copy-Keeps :
    (r : ApprovalRequest) (move : Move) (b : String)
    → Keeps r (copy_with_blocker r move b) × ((copy_with_blocker r move b).status ≡ r.status)
unfolding copy_with_blocker
copy-Keeps r move b =
    (record { required_approvals = refl; required_roles = refl; approvers = refl }, refl)

moved-Keeps :
    (r : ApprovalRequest) (move : Move) (s : String) (d : Option String) (why : String)
    → Keeps r (moved r move s d why) × ((moved r move s d why).status ≡ s)
unfolding moved
moved-Keeps r move s d why =
    (record { required_approvals = refl; required_roles = refl; approvers = refl }, refl)

-- The outcome of one transition: what is kept, and what a status of approved comes from.
pub record Outcome (r : ApprovalRequest) (move : Move) (r' : ApprovalRequest) : Type 0 where
  pub keeps : Keeps r r'
  pub endorsed :
      r'.status ≡ "approved"
      → (r.status ≡ "approved") ⊎ ((move.transition ≡ "approve") × IsEndorsed r)

moved-Outcome :
    (r : ApprovalRequest) (move : Move) (s : String) (d : Option String) (why : String)
    → (s == "approved") ≡ false
    → Outcome r move (moved r move s d why)
unfolding moved
moved-Outcome r move s d why h = record {
  keeps = (moved-Keeps r move s d why).0;
  endorsed = λ e. absurd (cc ((eq_iff s "approved").1 e, h));
}

copy-Outcome :
    (r : ApprovalRequest) (move : Move) (b : String) → Outcome r move (copy_with_blocker r move b)
unfolding copy_with_blocker
copy-Outcome r move b = record { keeps = (copy-Keeps r move b).0; endorsed = λ e. inl e }

approve-Outcome :
    (r : ApprovalRequest) (move : Move)
    → move.transition ≡ "approve"
    → Outcome r move (approve r move)
unfolding approve moved
approve-Outcome r move same =
    let roles = approved_roles r.approvers r.required_roles in
    if-either (Outcome r move)
      (leb r.required_approvals (length roles) && ltb 0 r.required_approvals)
      (λ e. record {
        keeps = record { required_approvals = refl; required_roles = refl; approvers = refl };
        endorsed = λ k. inr (same, record { count = ground arith; positive = ground arith });
      })
      (λ e. record {
        keeps = record { required_approvals = refl; required_roles = refl; approvers = refl };
        endorsed = λ k. inl k;
      })

module _ (r : ApprovalRequest) (move : Move) where
  abbrev either :
      (b : Bool) {x y : ApprovalRequest}
      → (b ≡ true → Outcome r move x)
      → (b ≡ false → Outcome r move y)
      → Outcome r move (if b then x else y)
  either = if-either (Outcome r move)

  carry_out-Outcome : Outcome r move (carry_out r move)
  unfolding carry_out
  carry_out-Outcome =
      let t = move.transition in
      either (t == "create") (λ _. moved-Outcome r move "pending" r.decision "created" refl)
        λ _.
          either (t == "approve") (λ e. approve-Outcome r move ((eq_iff t "approve").0 e))
            λ _.
              either (t == "reject")
                (λ _. moved-Outcome r move "rejected" (some "rejected") "rejected" refl)
                λ _.
                  either (t == "expire")
                    (λ _. moved-Outcome r move "expired" (some "expired") "expired" refl)
                    λ _.
                      either (t == "cancel")
                        (λ _. moved-Outcome r move "cancelled" (some "cancelled") "cancelled" refl)
                        λ _.
                          either (t == "block")
                            (λ _. moved-Outcome r move "blocked" (some "blocked") "blocked" refl)
                            λ _. moved-Outcome r move "pending" r.decision "reopened" refl

  transition_fields-Outcome : Outcome r move (transition_fields r move)
  unfolding transition_fields
  transition_fields-Outcome =
      either (not (mem move.transition transitions)) (λ _. copy-Outcome r move _)
        λ _.
          either
            ((r.status == "blocked" && move.transition == "reopen")
              && not (allows_reopen move.context))
            (λ _. copy-Outcome r move _)
            λ _.
              either (not (mem move.transition (valid_transitions r.status)))
                (λ _. copy-Outcome r move _) λ _. carry_out-Outcome

  no_transition : (t s : String) → s ≡ "approved" → mem t (valid_transitions s) ≡ false
  unfolding valid_transitions any_where
  no_transition t s e = rw e refl

  -- A request that is approved stays so under every transition.
  approved_fields : r.status ≡ "approved" → (transition_fields r move).status ≡ "approved"
  unfolding transition_fields copy_with_blocker
  approved_fields e =
      let P = λ (x : ApprovalRequest). x.status ≡ "approved" in
      if-either P (not (mem move.transition transitions)) (λ _. e)
        λ _.
          if-either P
            ((r.status == "blocked" && move.transition == "reopen")
              && not (allows_reopen move.context))
            (λ _. e)
            λ _.
              if-either P (not (mem move.transition (valid_transitions r.status))) (λ _. e)
                (λ bad.
                  absurd (let none_ = no_transition move.transition r.status e in ground arith))

-- One transition of a request, with any arguments.
pub data Reach (py : Python) (r : ApprovalRequest) : ApprovalRequest → Type 0 where
  here : Reach py r r
  next :
      {r' : ApprovalRequest} (move : Move)
      → Reach py r r'
      → Reach py r (transition_approval_request py (given r') move)

-- Approval is final: no sequence of transitions, whatever their arguments, takes a request that is
-- approved to another status.
pub Reach-approved :
    (py : Python) (r r' : ApprovalRequest)
    → Reach py r r'
    → r.status ≡ "approved"
    → r'.status ≡ "approved"
unfolding transition_approval_request build_response
Reach-approved py r r' here e = e
Reach-approved py r r' (next {r' = mid} move reach) e =
    approved_fields mid move (Reach-approved py r mid reach e)

-- Dicts among the approvers have at least `n` distinct roles of those required.
pub record IsBacked (n : ℕ) (required : List String) (approvers : List Approver) : Type 0 where
  pub roles : List String
  pub counted : IsCounted required approvers roles
  pub enough : n ≤ length roles
  pub positive : 0 < n

-- The request has these requirements and no approver but these, and is approved only if they back it.
pub record Holds (n : ℕ) (required : List String) (approvers : List Approver) (r : ApprovalRequest)
    : Type 0 where
  pub approvals : r.required_approvals ≡ n
  pub roles : r.required_roles ≡ required
  pub only : (s : String) → HasRole s r.approvers → HasRole s approvers
  pub backed : r.status ≡ "approved" → IsBacked n required approvers

module _ (n : ℕ) (required : List String) (approvers : List Approver) where
  endorsed-IsBacked :
      (r : ApprovalRequest)
      → Holds n required approvers r
      → IsEndorsed r
      → IsBacked n required approvers
  endorsed-IsBacked r h e =
      let found = approved_roles r.approvers r.required_roles in
      let k = approved_roles-IsCounted r.required_roles r.approvers in
      record {
        roles = found;
        counted = record {
          distinct = k.distinct;
          counted = All-map found (λ s p. (rw (sym h.roles) p.0, h.only s p.1)) k.counted;
        };
        enough = rw (sym h.approvals) e.count;
        positive = rw (sym h.approvals) e.positive;
      }

  Step-Holds :
      (py : Python) (r : ApprovalRequest) (move : Move)
      → Holds n required approvers r
      → Holds n required approvers (transition_approval_request py (given r) move)
  unfolding transition_approval_request build_response
  Step-Holds py r move h =
      let out = transition_fields-Outcome r move in
      record {
        approvals = out.keeps.required_approvals ∙ h.approvals;
        roles = out.keeps.required_roles ∙ h.roles;
        only = λ s k.
            let old =
              normalise-Any (λ a. role_of a ≡ some s) (transition_fields r move).approvers k in
            h.only s (rw out.keeps.approvers at old);
        backed = λ e. elim (out.endorsed e) [
          | inl already ↦ h.backed already
          | inr (how, fresh) ↦ endorsed-IsBacked r h fresh
        ];
      }

  pub Reach-Holds :
      (py : Python) {r r' : ApprovalRequest}
      → Holds n required approvers r
      → Reach py r r'
      → Holds n required approvers r'
  Reach-Holds py h here = h
  Reach-Holds py h (next {r' = mid} move reach) = Step-Holds py mid move (Reach-Holds py h reach)
