-- ===== src/Examples/Services.antt =====
-- Runs of the grant service.
use grantlayer.Prelude.{
  ◌≡◌, refl, ◌≤◌, Bool, none, some, Option, arith, length, any_where, first_where,
}
use grantlayer.Result.{Result, ok}
use grantlayer.Models.{Grant}
use grantlayer.Signing.{verify_grant_signature, valid, sign_grant}
use grantlayer.Grants
use grantlayer.Database.{Database}
use grantlayer.Service.{renew_grant, revoke_grant, get_grant, sign_and_renew}
use grantlayer.Service.Witness.{here, next, revokes, Reach-unchanged}
use grantlayer.Service.Renewal.{renew_grant-get}
use grantlayer.Examples.Fixtures.{flat-IsSound, toy, flat, deploy, table, office, at_noon, value_or}

abbrev branch : Database
branch = record office { grants = table }

-- A revocation of an id that no grant has.
abbrev searched : Bool × Database
searched = revoke_grant toy at_noon "grant-7" "acme" "default" "root" "gone" branch

no_event : length searched.1.audit_events ≤ length branch.audit_events
unfolding revoke_grant Grants.revoke any_where
no_event = omega arith

Reach-unchanged_example : searched.1 ≡ branch
Reach-unchanged_example =
    Reach-unchanged toy branch searched.1
      (next here (revokes at_noon "grant-7" "acme" "default" "root" "gone")) no_event

abbrev renewing : Result (Option Grant × Database)
renewing = renew_grant flat at_noon "grant-1" "2027-06-30T00:00:00Z" "root" "acme" "default" branch

abbrev renewed : Option Grant × Database
renewed = value_or (none, branch) renewing

abbrev or_deploy : Option Grant → Grant
or_deploy none = deploy
or_deploy (some g) = g

renewal : renewing ≡ ok (some (or_deploy renewed.0), renewed.1)
unfolding renew_grant Grants.get first_where sign_and_renew sign_grant Grants.renew any_where
renewal = refl

renew_grant-get_example :
    (get_grant "grant-1" "acme" "default" renewed.1 ≡ some (or_deploy renewed.0))
    × ((or_deploy renewed.0).valid_until ≡ "2027-06-30T00:00:00Z")
    × (verify_grant_signature flat (or_deploy renewed.0) ≡ valid)
renew_grant-get_example =
    renew_grant-get flat at_noon "grant-1" "2027-06-30T00:00:00Z" "root" "acme" "default" branch
      renewed.1 (or_deploy renewed.0) flat-IsSound renewal
