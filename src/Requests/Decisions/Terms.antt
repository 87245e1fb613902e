-- ===== src/Requests/Decisions/Terms.antt =====
-- The terms of the grant that an approval makes, and the rows that it writes.
use mathlib.Core.Path.{subst}
use grantlayer.Prelude.{
  ◌++◌, List, Option-cases, inl, inr, String, ◌≡◌, refl, false, none, some, [], ◌∷◌, arith,
}
use grantlayer.Result.{ok, ok-inj}
use grantlayer.Platform.{Platform}
use grantlayer.Models.{Grant, GrantRequest}
use grantlayer.Signing.{sign_grant}
use grantlayer.Grants
use grantlayer.Grants.{GrantRow}
use grantlayer.Database.{Moment}
use grantlayer.Requests.Decisions.{requested_grant}

-- The grant has the terms of the request, made by the operator at the time, under the fresh id: for
-- the same subject, role, action, resource and dates, signed, not revoked, without limits and never
-- used.
pub record HasTerms (at : Moment) (operator_id : String) (request : GrantRequest) (grant : Grant)
    : Type 0 where
  pub id : grant.id ≡ at.grant_id
  pub signature : (s : String) × (grant.signature ≡ some s)
  pub subject_id : grant.subject_id ≡ request.subject_id
  pub role : grant.role ≡ request.role
  pub action : grant.action ≡ request.action
  pub resource : grant.resource ≡ request.resource
  pub valid_from : grant.valid_from ≡ request.valid_from
  pub valid_until : grant.valid_until ≡ request.valid_until
  pub created_by : grant.created_by ≡ operator_id
  pub created_at : grant.created_at ≡ at.now
  pub revoked : grant.revoked ≡ false
  pub max_uses : grant.max_uses ≡ none
  pub use_count : grant.use_count ≡ 0
  pub constraints : grant.constraints ≡ none

pub sign_grant-HasTerms :
    (py : Platform) (at : Moment) (request_id operator_id : String) (request : GrantRequest)
    (grant : Grant)
    → sign_grant py (requested_grant at request_id operator_id request) ≡ ok grant
    → HasTerms at operator_id request grant
unfolding sign_grant requested_grant
sign_grant-HasTerms py at request_id operator_id request grant h =
    elim (Option-cases (py.keyring py.key_id)) [
      | inl e ↦ absurd (ground (arith, e))
      | inr (key, e) ↦
          subst (HasTerms at operator_id request) (ok-inj (rw (e, sign_grant) at h)) (record {
            id = refl;
            signature = (_, refl);
            subject_id = refl;
            role = refl;
            action = refl;
            resource = refl;
            valid_from = refl;
            valid_until = refl;
            created_by = refl;
            created_at = refl;
            revoked = refl;
            max_uses = refl;
            use_count = refl;
            constraints = refl;
          })
    ]

-- The request with the columns of an approval.
abbrev pub granted : String → String → String → GrantRequest → GrantRequest
granted operator_id grant_id now q = record q {
  status = "approved";
  approved_by = some operator_id;
  approved_at = some now;
  grant_id = some grant_id;
  updated_at = now;
}

-- A row with the grant, its four columns of revocation empty, in the tenant and the workspace.
abbrev pub new_row : Grant → String → String → GrantRow
new_row grant tenant workspace = record {
  grant = record grant {
    revoked = false;
    revoked_by = none;
    revoked_reason = none;
    revoked_at = none;
  };
  tenant_id = tenant;
  workspace_id = workspace;
}

pub create-new_row :
    (grant : Grant) (tenant workspace : String) (rows rows' : List GrantRow)
    → Grants.create grant tenant workspace rows ≡ ok rows'
    → rows' ≡ rows ++ new_row grant tenant workspace ∷ []
unfolding Grants.create Grants.inserted
create-new_row grant tenant workspace rows rows' h = ground arith
