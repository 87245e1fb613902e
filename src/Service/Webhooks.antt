-- ===== src/Service/Webhooks.antt =====
-- AsyncGrantService of backend/src/grants/grant_service.py: the grant service, and what it tells a
-- webhook of each change.
use grantlayer.Prelude.{String, Bool, Option, none, some, List, [], ◌∷◌, if◌then◌else◌}
use grantlayer.Result.{Result, ok, ◌>>=◌}
use grantlayer.Platform.{Platform}
use grantlayer.Models.{Grant}
use grantlayer.Database.{Database, Moment}
use grantlayer.Service.{get_grant, create_grant, revoke_grant, renew_grant}

-- What a webhook is told: the name of the event, and its entries.
pub record Dispatch : Type 0 where
  pub event : String
  pub payload : List (String × String)
  pub tenant_id : String
  pub workspace_id : String

unfoldable pub dispatch_created : Grant → String → String → Dispatch
dispatch_created grant tenant_id workspace_id = record {
  event = "grant.created";
  payload =
      ("id", grant.id)
      ∷ ("subject_id", grant.subject_id)
      ∷ ("role", grant.role)
      ∷ ("action", grant.action)
      ∷ ("resource", grant.resource)
      ∷ ("valid_from", grant.valid_from)
      ∷ ("valid_until", grant.valid_until)
      ∷ ("created_by", grant.created_by)
      ∷ [];
  tenant_id = tenant_id;
  workspace_id = workspace_id;
}

unfoldable pub dispatch_revoked : String → String → String → String → String → Dispatch
dispatch_revoked grant_id revoked_by reason tenant_id workspace_id = record {
  event = "grant.revoked";
  payload = ("id", grant_id) ∷ ("revoked_by", revoked_by) ∷ ("reason", reason) ∷ [];
  tenant_id = tenant_id;
  workspace_id = workspace_id;
}

unfoldable pub dispatch_renewed : String → String → String → String → String → String → Dispatch
dispatch_renewed grant_id renewed_by old_valid_until valid_until tenant_id workspace_id = record {
  event = "grant.renewed";
  payload =
      ("id", grant_id)
      ∷ ("renewed_by", renewed_by)
      ∷ ("old_valid_until", old_valid_until)
      ∷ ("valid_until", valid_until)
      ∷ [];
  tenant_id = tenant_id;
  workspace_id = workspace_id;
}

-- AsyncGrantService: the same, and then the webhook, where something was done.
module _ (py : Platform) (at : Moment) where
  unfoldable pub create_grant_async :
      Grant → String → String → Option String → Database → Result ((Grant × Dispatch) × Database)
  unfolding create_grant
  create_grant_async grant tenant_id workspace_id operator_id db =
      create_grant py at grant tenant_id workspace_id operator_id db
      >>= (λ out. ok ((out.0, dispatch_created out.0 tenant_id workspace_id), out.1))

  unfoldable pub revoke_grant_async :
      String → String → String → String → String → Database → (Bool × Option Dispatch) × Database
  unfolding revoke_grant
  revoke_grant_async grant_id tenant_id workspace_id revoked_by reason db =
      let out = revoke_grant py at grant_id tenant_id workspace_id revoked_by reason db in
      let told = dispatch_revoked grant_id revoked_by reason tenant_id workspace_id in
      ((out.0, if out.0 then some told else none), out.1)

  -- `old` is what was read before.
  unfoldable pub told_renewal :
      String → String → String → String → String → Option Grant → Option Grant → Option Dispatch
  told_renewal grant_id valid_until renewed_by tenant_id workspace_id none renewed = none
  told_renewal grant_id valid_until renewed_by tenant_id workspace_id (some old) none = none
  told_renewal grant_id valid_until renewed_by tenant_id workspace_id (some old) (some g) =
      some (dispatch_renewed grant_id renewed_by old.valid_until valid_until tenant_id workspace_id)

  unfoldable pub renew_grant_async :
      String
      → String
      → String
      → String
      → String
      → Database
      → Result ((Option Grant × Option Dispatch) × Database)
  unfolding renew_grant told_renewal
  renew_grant_async grant_id new_valid_until renewed_by tenant_id workspace_id db =
      let old = get_grant grant_id tenant_id workspace_id db in
      renew_grant py at grant_id new_valid_until renewed_by tenant_id workspace_id db >>= (λ out.
        ok (
          (
            out.0,
            told_renewal grant_id new_valid_until renewed_by tenant_id workspace_id old out.0,
          ),
          out.1,
        ))
