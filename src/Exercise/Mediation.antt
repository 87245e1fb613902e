-- ===== src/Exercise/Mediation.antt =====
-- What an action that was allowed has passed.
use grantlayer.Prelude.{
  String, ◌≡◌, refl, ap, sym, ◌∙◌, true, false, ◌&&◌, Option, none, some, List, arith, is_empty,
  All, Any, Bool-cases, inl, inr, ◌⊎◌,
}
use grantlayer.Result.{ok, Result-cases}
use grantlayer.Platform.{Platform}
use grantlayer.Models.{Grant, PolicyResult}
use grantlayer.Policy.Engine.{instant, evaluate_access}
use grantlayer.Policy.Engine.Denials.{Chosen}
use grantlayer.Policy.Engine.Access.{approved-Permits}
use grantlayer.Signing
use grantlayer.Signing.{SignatureResult, is_unset, verify_grant_signature}
use grantlayer.Challenges
use grantlayer.Challenges.{ChallengeResult, ChallengeRow, read_and_check, validate_challenge}
use grantlayer.Grants
use grantlayer.Grants.{GrantRow}
use grantlayer.Grants.Revocation.{list-All}
use grantlayer.Exercise.{
  Attempt, Readings, Store, Response, matched_grant, on_challenge, consume, populated,
}
use grantlayer.Exercise.Handler.{
  challenge_required, refused_execution, check_signature, decide, handle_demo_action,
}
use grantlayer.Exercise.Steps.{
  failed-refuses, commit-approved, consume-approved, consume-denied, check_signature-denied,
  on_challenge-approved, check_signature-approved, Chosen-matched,
}

-- The action was allowed for good reason, and its grant was charged for it.
pub record IsAuthorized (py : Platform) (attempt : Attempt) (at : Readings) (store store' : Store)
    (tenant : String) (grants : List Grant) (grant : Grant) (result : PolicyResult) : Type 0 where
  pub evaluated : evaluate_access py attempt.request grants at.now ≡ ok result
  pub names : result.matched_grant_id ≡ some grant.id
  pub permitted : Any (Chosen py attempt.request (instant at.now) result) grants
  pub listed : matched_grant (some grant.id) grants ≡ some grant
  pub signed : verify_grant_signature py grant ≡ Signing.valid
  pub challenged :
      (attempt.challenge_id ≡ none)
      ⊎ ((id : String) × (attempt.challenge_id ≡ some id)
          × (read_and_check at.challenge_now id attempt.request.subject_id attempt.request.action
                attempt.request.resource
                (some tenant)
                store.challenges
              ≡ Challenges.valid))
  pub required : attempt.require_challenge && is_unset attempt.challenge_id ≡ false
  pub consumed : (Grants.try_consume_use grant.id store.db.grants).0 ≡ true
  pub charged : store'.db.grants ≡ (Grants.try_consume_use grant.id store.db.grants).1

module _ (py : Platform) (attempt : Attempt) (at : Readings) (store store' : Store)
    (r : Response) where
  unfoldable pub scope_grants : String → List Grant
  scope_grants tenant = Grants.list (some tenant) (some attempt.workspace_id) none 0 store.db.grants

  decide-IsAuthorized :
      (tenant : String)
      → All (λ row. is_empty row.grant.id ≡ false) store.db.grants
      → attempt.require_challenge && is_unset attempt.challenge_id ≡ false
      → decide py attempt tenant at store ≡ (ok r, store')
      → r.approved ≡ true
      → (grant : Grant) × (result : PolicyResult) × IsAuthorized py attempt at store store' tenant
          (scope_grants tenant)
          grant
          result
  unfolding decide scope_grants
  decide-IsAuthorized tenant ids required h a =
      let grants = scope_grants tenant in
      elim (Result-cases (evaluate_access py attempt.request grants at.now)) [
        | inl (e, eq) ↦
            absurd
              (cc (a, failed-refuses attempt tenant at _ store store' r (rw (eq, decide) at h)))
        | inr (result, eq) ↦
            let (checked, signature) = check_signature py grants result in
            let (judged, challenges) =
              on_challenge attempt tenant at checked signature store.challenges in
            let (decision, rows) = consume judged store.db.grants in
            let (allowed, charged) =
              commit-approved py attempt tenant at decision (populated attempt at decision store.db)
                rows (record store { challenges = challenges }) store' r (rw (eq, decide) at h) a in
            let (kept, challenged) =
              on_challenge-approved attempt tenant at checked signature store.challenges
                (consume-denied judged store.db.grants allowed) in
            let checked_ok : checked.approved ≡ true =
              ap (λ (x : PolicyResult). x.approved) kept
              ∙ consume-denied judged store.db.grants allowed in
            let permitted =
              approved-Permits py attempt.request grants at.now result eq
                (check_signature-denied py grants result checked_ok) in
            let (grant, names, named, listed) =
              Chosen-matched py attempt.request (instant at.now) result grants
                (list-All (λ g. is_empty g.id ≡ false) (some tenant) (some attempt.workspace_id)
                  none 0 store.db.grants ids)
                permitted in
            let (same, signed) =
              check_signature-approved py grants result grant listed checked_ok in
            let (_, consumed, after) =
              consume-approved judged store.db.grants grant.id
                (ap (λ (x : PolicyResult). x.matched_grant_id) (sym kept ∙ same) ∙ names) named
                allowed in
            (
              grant,
              result,
              record {
                evaluated = eq;
                names = names;
                permitted = permitted;
                listed = ap (λ i. matched_grant i grants) (sym names) ∙ listed;
                signed = signed;
                challenged = challenged;
                required = required;
                consumed = consumed;
                charged = charged ∙ after;
              },
            )
      ]

  -- An action that is allowed was asked for in a tenant and workspace one of whose grants permits
  -- it; the first grant of that id there carries a valid signature; the challenge is valid where
  -- one is given, and given where one is required; and a use of the grant was left and is taken.
  -- No grant of the table has the empty text for its id.
  pub handle_demo_action-IsAuthorized :
      (tenant_id : Option String)
      → All (λ row. is_empty row.grant.id ≡ false) store.db.grants
      → handle_demo_action py attempt tenant_id at store ≡ (ok r, store')
      → r.approved ≡ true
      → (tenant : String) × (grant : Grant) × (result : PolicyResult) × (tenant_id ≡ some tenant)
        × IsAuthorized py attempt at store store' tenant (scope_grants tenant) grant result
  unfolding handle_demo_action
  handle_demo_action-IsAuthorized none ids h a = absurd (ground arith)
  handle_demo_action-IsAuthorized (some tenant) ids h a =
      elim (Bool-cases (is_empty attempt.workspace_id)) [
        | inl blank ↦ absurd (ground arith)
        | inr named ↦
            elim (Bool-cases (attempt.require_challenge && is_unset attempt.challenge_id)) [
              | inl missing ↦
                  let (refused, _) =
                    commit-approved py attempt tenant at challenge_required
                      (refused_execution attempt at) store.db.grants store store' r
                      (rw (named, missing, handle_demo_action) at h) a in
                  absurd (unfold challenge_required in cc refused)
              | inr met ↦
                  let (grant, result, k) =
                    decide-IsAuthorized tenant ids met (rw (named, met, handle_demo_action) at h)
                      a in
                  (tenant, grant, result, refl, k)
            ]
      ]
