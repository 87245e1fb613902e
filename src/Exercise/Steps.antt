-- ===== src/Exercise/Steps.antt =====
-- What each step of the protected action does to an approval.
use grantlayer.Prelude.{
  ℕ, String, ◌≡◌, refl, ap, sym, true, false, none, some, List, [], ◌∷◌, arith, ◌==◌, opt_eq,
  opt_eq→eq, opt_eq_refl, is_empty, first_where, All, Any, Bool-cases, Option-cases, inl, inr, ◌⊎◌,
}
use grantlayer.Result.{Result, ok, err, Result-cases}
use grantlayer.Platform.{Platform}
use grantlayer.Models.{Grant, AccessRequest, PolicyResult, GrantExecution}
use grantlayer.Policy.Engine.Denials.{Chosen}
use grantlayer.Signing
use grantlayer.Signing.{SignatureResult, is_unset, verify_grant_signature}
use grantlayer.Challenges
use grantlayer.Challenges.{ChallengeResult, ChallengeRow, read_and_check, validate_challenge}
use grantlayer.Grants
use grantlayer.Grants.{GrantRow}
use grantlayer.Executions
use grantlayer.Exercise.{
  Attempt, Readings, Store, Response, Decision, overruled, challenge_word, on_signature,
  matched_grant, on_challenge, consume, response,
}
use grantlayer.Exercise.Handler.{failure, failed, check_signature, commit}

pub failed-refuses :
    (attempt : Attempt) (tenant : String) (at : Readings) (execution : GrantExecution)
    (store store' : Store) (r : Response)
    → failed attempt tenant at execution store ≡ (ok r, store')
    → r.approved ≡ false
unfolding failed
failed-refuses attempt tenant at execution store store' r h =
    elim (Result-cases
      (Executions.create (failure at execution) tenant attempt.workspace_id store.db.executions)) [
        | inl (e, eq) ↦ absurd (ground arith)
        | inr (rows, eq) ↦
            ap (λ (o : Result Response × Store). elim o.0 [ err _ ↦ false | ok x ↦ x.approved ])
              (sym (rw (eq, failed) at h))
      ]

pub commit-approved :
    (py : Platform) (attempt : Attempt) (tenant : String) (at : Readings) (decision : Decision)
    (execution : GrantExecution) (grants : List GrantRow) (store store' : Store) (r : Response)
    → commit py attempt tenant at decision execution grants store ≡ (ok r, store')
    → r.approved ≡ true
    → (decision.result.approved ≡ true) × (store'.db.grants ≡ grants)
unfolding commit response
commit-approved py attempt tenant at decision execution grants store store' r h a =
    elim (Result-cases
      (Executions.create execution tenant attempt.workspace_id store.db.executions)) [
        | inl (e, eq) ↦ absurd (
            cc
              (a, failed-refuses attempt tenant at execution store store' r (rw (eq, commit) at h)))
        | inr (rows, eq) ↦ elim (Option-cases at.audit_error) [
          | inr (e, raised) ↦ absurd (
              cc (
                a,
                failed-refuses attempt tenant at execution store store' r
                    (rw (eq, raised, commit) at h),
              ))
          | inl quiet ↦ elim (Bool-cases decision.result.approved) [
            | inl held ↦ (
              held,
              sym (
                  ap (λ (o : Result Response × Store). o.1.db.grants)
                    (rw (eq, quiet, commit) at h)),
            )
            | inr lost ↦ absurd (ground (arith, quiet))
          ]
        ]
      ]

pub consume-approved :
    (decision : Decision) (rows : List GrantRow) (grant_id : String)
    → decision.result.matched_grant_id ≡ some grant_id
    → is_empty grant_id ≡ false
    → (consume decision rows).0.result.approved ≡ true
    → (decision.result.approved ≡ true)
      × ((Grants.try_consume_use grant_id rows).0 ≡ true)
      × ((consume decision rows).1 ≡ (Grants.try_consume_use grant_id rows).1)
unfolding consume overruled
consume-approved decision rows grant_id m n a = elim (Bool-cases decision.result.approved) [
  | inl held ↦ ground (arith, m)
  | inr lost ↦ absurd (ground arith)
]

pub consume-denied :
    (decision : Decision) (rows : List GrantRow)
    → (consume decision rows).0.result.approved ≡ true
    → decision.result.approved ≡ true
unfolding consume overruled
consume-denied decision rows a = elim (Option-cases decision.result.matched_grant_id) [
  | inl absent ↦ ground (arith, absent)
  | inr (id, e) ↦ ground (arith, e)
]

pub check_signature-denied :
    (py : Platform) (grants : List Grant) (result : PolicyResult)
    → (check_signature py grants result).0.approved ≡ true
    → result.approved ≡ true
unfolding check_signature on_signature overruled
check_signature-denied py grants result a =
    elim (Option-cases (matched_grant result.matched_grant_id grants)) [
      | inl absent ↦ ground (arith, absent)
      | inr (grant, e) ↦ ground (arith, e)
    ]

challenge_word-valid :
    (c : ChallengeResult) → (challenge_word c == "valid") ≡ true → c ≡ Challenges.valid
unfolding challenge_word
challenge_word-valid Challenges.valid h = refl
challenge_word-valid Challenges.not_found h = absurd (ground arith)
challenge_word-valid Challenges.expired h = absurd (ground arith)
challenge_word-valid Challenges.already_used h = absurd (ground arith)
challenge_word-valid Challenges.mismatch h = absurd (ground arith)

pub on_challenge-approved :
    (attempt : Attempt) (tenant : String) (at : Readings) (result : PolicyResult)
    (signature : String) (rows : List ChallengeRow)
    → (on_challenge attempt tenant at result signature rows).0.result.approved ≡ true
    → (result ≡ (on_challenge attempt tenant at result signature rows).0.result)
      × ((attempt.challenge_id ≡ none)
          ⊎ ((id : String) × (attempt.challenge_id ≡ some id)
              × (read_and_check at.challenge_now id attempt.request.subject_id
                    attempt.request.action attempt.request.resource
                    (some tenant)
                    rows
                  ≡ Challenges.valid)))
unfolding on_challenge overruled validate_challenge challenge_word
on_challenge-approved attempt tenant at result signature rows a =
    elim (Option-cases attempt.challenge_id) [
      | inl absent ↦ (ground (arith, absent), inl absent)
      | inr (id, e) ↦
          let found =
            read_and_check at.challenge_now id attempt.request.subject_id attempt.request.action
              attempt.request.resource (some tenant) rows in
          elim (Bool-cases (challenge_word found == "valid")) [
            | inl held ↦ (ground (arith, e), inr (id, e, challenge_word-valid found held))
            | inr lost ↦ absurd (ground (arith, e))
          ]
    ]

pub check_signature-approved :
    (py : Platform) (grants : List Grant) (result : PolicyResult) (grant : Grant)
    → matched_grant result.matched_grant_id grants ≡ some grant
    → (check_signature py grants result).0.approved ≡ true
    → ((check_signature py grants result).0 ≡ result)
      × (verify_grant_signature py grant ≡ Signing.valid)
unfolding check_signature on_signature overruled
check_signature-approved py grants result grant m a = ground (arith, m)

-- An approval that names a grant of the list has a first grant of that id there.
pub Chosen-matched :
    (py : Platform) (request : AccessRequest) (now : ℕ) (result : PolicyResult)
    (grants : List Grant)
    → All (λ g. is_empty g.id ≡ false) grants
    → Any (Chosen py request now result) grants
    → (grant : Grant) × (result.matched_grant_id ≡ some grant.id)
      × (is_empty grant.id ≡ false)
      × (matched_grant result.matched_grant_id grants ≡ some grant)
unfolding matched_grant is_unset first_where
Chosen-matched py request now result [] h c = elim c [ ]
Chosen-matched py request now result (g ∷ grants) h c =
    elim (Bool-cases (opt_eq (some g.id) result.matched_grant_id)) [
      | inl hit ↦
          let m = opt_eq→eq (some g.id) result.matched_grant_id hit in
          (g, sym m, h.0, ground (arith, m))
      | inr miss ↦
          let later : Any (Chosen py request now result) grants = elim c [
            | inl here ↦ absurd (ground (arith, here.1.1, opt_eq_refl (some g.id)))
            | inr there ↦ there
          ] in
          let (x, m, n, f) = Chosen-matched py request now result grants h.1 later in
          (x, m, n, ground (arith, m, n, f))
    ]
