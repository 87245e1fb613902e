-- ===== src/Exercise/Failure.antt =====
-- What a call that fails inside leaves of its writes.
use grantlayer.Prelude.{
  String, ◌≡◌, refl, true, false, ◌&&◌, none, some, List, arith, not, is_empty, update_where-none,
  Option-cases, Bool-cases, inl, inr, ◌⊎◌,
}
use grantlayer.Result.{Result-cases}
use grantlayer.Platform.{Platform}
use grantlayer.Policy.Engine.{evaluate_access}
use grantlayer.Signing.{is_unset}
use grantlayer.Grants
use grantlayer.Grants.{GrantRow}
use grantlayer.Exercise.{
  Attempt, Readings, Store, Decision, overruled, on_challenge, consume, populated, new_execution,
}
use grantlayer.Exercise.Handler.{
  decide, check_signature, challenge_required, refused_execution, handle_demo_action,
}
use grantlayer.Exercise.Writes.{IsUntouched, IsCharged, IsAtomic, failed-IsAtomic, commit-IsAtomic}

spent_out :
    (grant_id : String) (rows : List GrantRow)
    → (Grants.try_consume_use grant_id rows).0 ≡ false
    → (Grants.try_consume_use grant_id rows).1 ≡ rows
unfolding Grants.try_consume_use
spent_out grant_id rows h = update_where-none _ _ rows h

-- What is not approved, or names the empty text, is not charged.
spared :
    (decision : Decision) (rows : List GrantRow) (id : String)
    → decision.result.matched_grant_id ≡ some id
    → decision.result.approved && not (is_empty id) ≡ false
    → ((decision.result.approved ≡ false) × (rows ≡ rows))
      ⊎ ((is_unset decision.result.matched_grant_id ≡ true) × (rows ≡ rows))
spared decision rows id e h = elim (Bool-cases decision.result.approved) [
  | inr lost ↦ inl (lost, refl)
  | inl held ↦ inr (rw e (unfold is_unset in ground (arith, held)), refl)
]

consume-IsCharged :
    (decision : Decision) (rows : List GrantRow)
    → IsCharged (consume decision rows).0 rows (consume decision rows).1
unfolding consume is_unset overruled
consume-IsCharged decision rows = elim (Option-cases decision.result.matched_grant_id) [
  | inl absent ↦ rw (absent, consume) (inr (inr (rw absent refl, refl)))
  | inr (id, e) ↦ elim (Bool-cases (decision.result.approved && not (is_empty id))) [
    | inr lost ↦ rw (e, consume, lost) (inr (spared decision rows id e lost))
    | inl held ↦ elim (Bool-cases (Grants.try_consume_use id rows).0) [
      | inl taken ↦ rw (e, consume, held, taken) (inl (ground (arith, held), (id, e, taken, refl)))
      | inr none_left ↦
          rw (e, consume, held, none_left) (inr (inl (refl, spent_out id rows none_left)))
    ]
  ]
]

decide-IsAtomic :
    (py : Platform) (attempt : Attempt) (tenant : String) (at : Readings) (store : Store)
    → IsAtomic py attempt tenant at store.db (decide py attempt tenant at store).1.db
unfolding decide populated new_execution
decide-IsAtomic py attempt tenant at store =
    let grants = Grants.list (some tenant) (some attempt.workspace_id) none 0 store.db.grants in
    elim (Result-cases (evaluate_access py attempt.request grants at.now)) [
      | inl (e, eq) ↦
          rw (eq, decide) (failed-IsAtomic py attempt tenant at (new_execution attempt at) store)
      | inr (result, eq) ↦
          let (checked, signature) = check_signature py grants result in
          let (judged, challenges) =
            on_challenge attempt tenant at checked signature store.challenges in
          let (decision, rows) = consume judged store.db.grants in
          rw (eq, decide)
            (commit-IsAtomic py attempt tenant at decision (populated attempt at decision store.db)
              rows (record store { challenges = challenges })
              (consume-IsCharged judged store.db.grants) (refl, refl, refl))
    ]

-- A call either changes neither the grants nor the requests nor the events, and adds at most a
-- failed execution under the id for failures; or makes every write of one decision: an execution
-- with the decision's outcome and grant, linked to its event, that event, and one use of the grant
-- where the decision approves and names one, and none where it does not approve. Where the database
-- raises at the event, it is the former.
pub handle_demo_action-IsAtomic :
    (py : Platform) (attempt : Attempt) (tenant : String) (at : Readings) (store : Store)
    → IsAtomic py attempt tenant at store.db
        (handle_demo_action py attempt (some tenant) at store).1.db
unfolding handle_demo_action decide refused_execution challenge_required new_execution
handle_demo_action-IsAtomic py attempt tenant at store =
    elim (Bool-cases (is_empty attempt.workspace_id)) [
      | inl blank ↦
          let same : IsUntouched attempt tenant at store.db store.db = record {
            grants = refl;
            requests = refl;
            audit_events = refl;
            executions = inl refl;
          } in
          rw (blank, handle_demo_action) (record { all_or_none = inl same; undone = λ _. same })
      | inr named ↦ elim (Bool-cases (attempt.require_challenge && is_unset attempt.challenge_id)) [
        | inl missing ↦
            rw (named, missing, handle_demo_action)
              (commit-IsAtomic py attempt tenant at challenge_required
                (refused_execution attempt at) store.db.grants store (inr (inl (refl, refl)))
                (refl, refl, refl))
        | inr met ↦ rw (named, met, handle_demo_action) (decide-IsAtomic py attempt tenant at store)
      ]
    ]
