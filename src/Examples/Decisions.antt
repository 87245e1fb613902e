-- ===== src/Examples/Decisions.antt =====
-- Decisions on the grants of the fixtures.
use grantlayer.Prelude.{
  ◌≡◌, refl, ◌↔◌, true, false, none, some, List, [], ◌∷◌, Any, inl, inr, arith, select, concat,
}
use grantlayer.Prelude.Int.{pos}
use grantlayer.Result.{ok}
use grantlayer.Platform.{DateTime, aware}
use grantlayer.Models.{Grant, PolicyResult}
use grantlayer.Policy.Constraints.{check_constraints}
use grantlayer.Policy.Constraints.Limits.{IsPermitted, check_constraints-IsPermitted}
use grantlayer.Policy.Engine.{instant, evaluate_access, granted, parse_iso, utc_offset}
use grantlayer.Policy.Engine.Decision.{Permits}
use grantlayer.Policy.Engine.Denials.{Chosen, IsFirst, denials}
use grantlayer.Policy.Engine.Access.{
  candidates, approved-Permits, Permits-approved, denied-IsFirst, evaluate_access_total,
}
use grantlayer.Examples.Fixtures.{toy, deploy, withdrawn, request}

abbrev both : List Grant
both = withdrawn ∷ deploy ∷ []

abbrev spring : DateTime
spring = aware 500

runs : evaluate_access toy request both spring ≡ ok (granted deploy)
unfolding evaluate_access select check_constraints
runs = refl

approves : (granted deploy).approved ≡ true
unfolding granted
approves = refl

approved-Permits_example : Any (Chosen toy request (instant spring) (granted deploy)) both
approved-Permits_example = approved-Permits toy request both spring (granted deploy) runs approves

deploy-Permits : Permits toy request (instant spring) deploy
unfolding instant parse_iso utc_offset
deploy-Permits = record {
  subject = refl;
  role = refl;
  action = inl refl;
  resource = inr refl;
  window = (100, 900, refl, refl, omega arith, omega arith);
  active = refl;
  uses = inr (2, refl, omega arith);
  limits = tt;
}

Permits-approved_example : (granted deploy).approved ≡ true
Permits-approved_example =
    Permits-approved toy request both spring (granted deploy) runs (inr (inl deploy-Permits))

abbrev refused : PolicyResult
refused = record {
  approved = false;
  reason = "Grant 'grant-0' has been revoked";
  matched_grant_id = some "grant-0";
  reason_code = some "grant_revoked";
  constraint_violation = none;
}

refuses : evaluate_access toy request (withdrawn ∷ []) spring ≡ ok refused
unfolding evaluate_access select concat
refuses = refl

denied-IsFirst_example :
    IsFirst toy request
      (instant spring)
      (denials toy request (instant spring) (candidates toy request (withdrawn ∷ []) spring))
      refused
denied-IsFirst_example = denied-IsFirst toy request (withdrawn ∷ []) spring refused refuses refl

evaluate_access_total_example :
    (r : PolicyResult) × (evaluate_access toy request both spring ≡ ok r)
unfolding select parse_iso utc_offset
evaluate_access_total_example =
    evaluate_access_total toy request both spring ((tt, tt), ((tt, tt), tt))

check_constraints-IsPermitted_example :
    (check_constraints toy (some "{\"max_fee_lovelace\": 5}") (some (pos 3)) none ≡ none)
    ↔ IsPermitted toy (some "{\"max_fee_lovelace\": 5}") (some (pos 3)) none
check_constraints-IsPermitted_example =
    check_constraints-IsPermitted toy (some "{\"max_fee_lovelace\": 5}") (some (pos 3)) none
