-- ===== src/Examples/Tables.antt =====
-- Runs on the tables of grants and challenges.
use grantlayer.Prelude.{
  ◌+◌, ◌-◌, String, ◌≡◌, refl, ◌≢◌, ◌↔◌, true, none, some, List, [], ◌∷◌, arith, any_where,
  first_where, select, update_where, sort_by,
}
use Prim.Native.Nat.{min}
use grantlayer.Result.{ok}
use grantlayer.Platform.{aware}
use grantlayer.Policy.Constraints.{check_constraints}
use grantlayer.Policy.Engine.{evaluate_access, granted}
use grantlayer.Grants.{revoke, try_consume_use, list}
use grantlayer.Grants.Revocation.{
  IsRevoked, IsKeyed, Reach, here, next, consumes, revoke-IsRevoked, revoked-not-approved,
}
use grantlayer.Grants.Uses.{HasCount, attempts, attempts-min}
use grantlayer.Grants.Scope.{others, revoke-others}
use grantlayer.Challenges.{
  ChallengeRow, ChallengeResult, valid, get_challenge, check_challenge, read_and_check,
  validate_challenge, mark_used, finish,
}
use grantlayer.Challenges.SingleUse.{IsUsable}
use grantlayer.Challenges.Reuse.{First, IsOf, validate_challenge-valid, accepted_once}
use grantlayer.Examples.Fixtures.{toy, deploy, request, table, challenge_row}

table-IsKeyed : IsKeyed table
unfolding any_where
table-IsKeyed = (refl, (refl, tt))

revoke-IsRevoked_example :
    IsRevoked "grant-1" (revoke "now" "grant-1" "root" "leak" (some "acme") none table).1
unfolding revoke any_where
revoke-IsRevoked_example =
    revoke-IsRevoked "now" "grant-1" "root" "leak" (some "acme") none table table-IsKeyed refl

withdrawn-IsRevoked : IsRevoked "grant-0" table
unfolding any_where
withdrawn-IsRevoked = record { all = (λ _. refl, (λ h. absurd (cc h), tt)); there = refl }

one_used : Reach table (try_consume_use "grant-1" table).1
one_used = next here (consumes "grant-1")

runs :
    evaluate_access toy request
      (list (some "acme") (some "default") none 0 (try_consume_use "grant-1" table).1)
      (aware 500)
    ≡ ok (granted deploy)
unfolding evaluate_access select check_constraints list try_consume_use sort_by update_where
runs = refl

approves : (granted deploy).approved ≡ true
unfolding granted
approves = refl

revoked-not-approved_example : (granted deploy).matched_grant_id ≢ some "grant-0"
revoked-not-approved_example =
    revoked-not-approved toy request (aware 500) "grant-0" (some "acme") (some "default") table
      (try_consume_use "grant-1" table).1 (granted deploy) withdrawn-IsRevoked one_used runs
      approves

attempts-min_example :
    ((attempts 3 "grant-1" table).0 ≡ min 3 (2 - 0))
    × HasCount "grant-1" 2 (0 + min 3 (2 - 0)) (attempts 3 "grant-1" table).1
unfolding any_where
attempts-min_example =
    attempts-min 3 "grant-1" 2 0 table ((λ _. (refl, refl)), ((λ _. (refl, refl)), tt)) refl
      (omega arith)

revoke-others_example :
    others "acme" "ops" (revoke "now" "grant-1" "root" "leak" (some "acme") (some "ops") table).1
    ≡ others "acme" "ops" table
revoke-others_example = revoke-others "now" "grant-1" "root" "leak" "acme" "ops" table

abbrev minute : String
minute = "2026-03-01T00:01:00Z"

abbrev challenges : List ChallengeRow
challenges = challenge_row ∷ []

validates :
    (validate_challenge minute "challenge-1" "ann" "deploy" "host-1" (some "acme") challenges).0.0
    ≡ valid
unfolding validate_challenge read_and_check check_challenge get_challenge first_where
validates = refl

validate_challenge-valid_example :
    ((validate_challenge minute "challenge-1" "ann" "deploy" "host-1" (some "acme") challenges).0.0
      ≡ valid)
    ↔ First
        (λ row. (row.challenge.id ≡ "challenge-1") × IsOf (some "acme") row)
        (λ row. IsUsable minute "ann" "deploy" "host-1" row.challenge)
        challenges
validate_challenge-valid_example =
    validate_challenge-valid minute "challenge-1" "ann" "deploy" "host-1" (some "acme") challenges

abbrev after : List ChallengeRow
after = (validate_challenge minute "challenge-1" "ann" "deploy" "host-1" (some "acme") challenges).1

accepted_once_example :
    (validate_challenge minute "challenge-1" "bob" "read" "host-2" none after).0.0 ≢ valid
accepted_once_example =
    accepted_once minute "challenge-1" "ann" "deploy" "host-1" (some "acme") challenges after minute
      "bob" "read" "host-2" none validates grantlayer.Challenges.SingleUse.here
