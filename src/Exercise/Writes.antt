-- ===== src/Exercise/Writes.antt =====
-- What the one transaction of a decision leaves, and what a failure in it leaves
-- (backend/src/demo/demo_action.py).
use mathlib.Core.Path.{subst}
use grantlayer.Prelude.{
  sym, String, ◌≡◌, ◌≢◌, ap, ◌∙◌, eq_iff, [], ◌∷◌, ◌++◌, any_where, update_where, if◌then◌else◌,
  refl, true, false, none, some, List, arith, Option-cases, Bool-cases, inl, inr, ◌⊎◌,
}
use grantlayer.Result.{Result, Error, ok, Result-cases}
use grantlayer.Platform.{Platform}
use grantlayer.Models.{GrantExecution, AuditEvent}
use grantlayer.Signing.{is_unset}
use grantlayer.Grants
use grantlayer.Grants.{GrantRow}
use grantlayer.Executions
use grantlayer.Audit.{append_event_sqlite}
use grantlayer.Database.{Database, ExecutionRow}
use grantlayer.Exercise.{Attempt, Readings, Store, Response, Decision, decision_event}
use grantlayer.Exercise.Handler.{failure, failed, commit}

-- The row of an execution.
abbrev pub row_of : Attempt → String → GrantExecution → ExecutionRow
row_of attempt tenant execution = record {
  execution = execution;
  tenant_id = tenant;
  workspace_id = attempt.workspace_id;
}

-- No use of a grant is taken, no request changes and no event is written; of the executions there
-- is at most one more, under the id for failures, whose result is failed.
pub record IsUntouched (attempt : Attempt) (tenant : String) (at : Readings) (db db' : Database)
    : Type 0 where
  pub grants : db'.grants ≡ db.grants
  pub requests : db'.requests ≡ db.requests
  pub audit_events : db'.audit_events ≡ db.audit_events
  pub executions :
      (db'.executions ≡ db.executions)
      ⊎ ((execution : GrantExecution) × (db'.executions
            ≡ db.executions ++ row_of attempt tenant execution ∷ [])
          × (execution.id ≡ at.failure_id)
          × (execution.result ≡ "failed"))

-- One use of the grant that an approval names is taken; where nothing is approved, or no grant is
-- named, the grants stay.
abbrev pub IsCharged : Decision → List GrantRow → List GrantRow → Type 0
IsCharged decision rows rows' =
    ((decision.result.approved ≡ true)
      × ((grant_id : String) × (decision.result.matched_grant_id ≡ some grant_id)
          × ((Grants.try_consume_use grant_id rows).0 ≡ true)
          × (rows' ≡ (Grants.try_consume_use grant_id rows).1)))
    ⊎ ((decision.result.approved ≡ false) × (rows' ≡ rows))
    ⊎ ((is_unset decision.result.matched_grant_id ≡ true) × (rows' ≡ rows))

-- The execution is of the decision: its id, its grant and its outcome.
abbrev pub IsRecord : Readings → Decision → GrantExecution → Type 0
IsRecord at decision execution =
    (execution.id ≡ at.execution_id)
    × (execution.grant_id ≡ decision.result.matched_grant_id)
    × (execution.result ≡ (if decision.result.approved then "succeeded" else "denied"))

-- Every write of the decision is there: the use of its grant, its execution with the link to the
-- event, and the event.
pub record IsWritten (py : Platform) (attempt : Attempt) (tenant : String) (at : Readings)
    (decision : Decision) (db db' : Database) : Type 0 where
  pub charged : IsCharged decision db.grants db'.grants
  pub requests : db'.requests ≡ db.requests
  pub execution : GrantExecution
  pub added : db'.executions ≡ db.executions ++ row_of attempt tenant execution ∷ []
  pub recorded : IsRecord at decision execution
  pub linked : execution.audit_event_id ≡ some at.event_id
  pub event : AuditEvent
  pub appended : db'.audit_events ≡ append_event_sqlite py event db.audit_events
  pub event_id : event.id ≡ at.event_id
  pub event_approved : event.approved ≡ decision.result.approved
  pub event_grant : event.matched_grant_id ≡ decision.result.matched_grant_id

-- Of one call, either every write of the decision is there, or none; and none where the database
-- raises at the event.
pub record IsAtomic (py : Platform) (attempt : Attempt) (tenant : String) (at : Readings)
    (db db' : Database) : Type 0 where
  pub all_or_none :
      IsUntouched attempt tenant at db db'
      ⊎ ((decision : Decision) × IsWritten py attempt tenant at decision db db')
  pub undone : at.audit_error ≢ none → IsUntouched attempt tenant at db db'

create-ok :
    (execution : GrantExecution) (tenant workspace : String) (rows rows' : List ExecutionRow)
    → Executions.create execution tenant workspace rows ≡ ok rows'
    → (any_where (Executions.has_id execution.id) rows ≡ false)
      × (rows'
          ≡ rows
            ++ record { execution = execution; tenant_id = tenant; workspace_id = workspace } ∷ [])
unfolding Executions.create
create-ok execution tenant workspace rows rows' h = (ground arith, ground arith)

-- The link reaches the new row, and no other.
update-added :
    (id event_id : String) (rows : List ExecutionRow) (row : ExecutionRow)
    → any_where (Executions.has_id id) rows ≡ false
    → Executions.has_id id row ≡ true
    → Executions.update_audit_event_id id event_id (rows ++ row ∷ [])
      ≡ rows
        ++ record row { execution = record row.execution { audit_event_id = some event_id } } ∷ []
unfolding Executions.update_audit_event_id update_where any_where
update-added id event_id [] row h k = rw k refl
update-added id event_id (r ∷ rows) row h k = elim (Bool-cases (Executions.has_id id r)) [
  | inl hit ↦ absurd (ground (arith, hit))
  | inr miss ↦ rw miss (
      ap (λ (xs : List ExecutionRow). r ∷ xs)
        (update-added id event_id rows row (rw (any_where, miss) at h) k))
]

failed-IsUntouched :
    (attempt : Attempt) (tenant : String) (at : Readings) (execution : GrantExecution)
    (store : Store)
    → IsUntouched attempt tenant at store.db (failed attempt tenant at execution store).1.db
unfolding failed
failed-IsUntouched attempt tenant at execution store =
    elim (Result-cases
      (Executions.create (failure at execution) tenant attempt.workspace_id store.db.executions)) [
        | inl (e, eq) ↦
            rw (eq, failed)
              (record {
                grants = refl;
                requests = refl;
                audit_events = refl;
                executions = inl refl;
              })
        | inr (rows, eq) ↦
            let made =
              create-ok (failure at execution) tenant attempt.workspace_id store.db.executions rows
                eq in
            rw (eq, failed)
              (record {
                grants = refl;
                requests = refl;
                audit_events = refl;
                executions = inr (failure at execution, made.1, refl, refl);
              })
      ]

pub failed-IsAtomic :
    (py : Platform) (attempt : Attempt) (tenant : String) (at : Readings)
    (execution : GrantExecution) (store : Store)
    → IsAtomic py attempt tenant at store.db (failed attempt tenant at execution store).1.db
failed-IsAtomic py attempt tenant at execution store =
    let none_ = failed-IsUntouched attempt tenant at execution store in
    record { all_or_none = inl none_; undone = λ _. none_ }

commit-raised :
    (py : Platform) (attempt : Attempt) (tenant : String) (at : Readings) (decision : Decision)
    (execution : GrantExecution) (grants : List GrantRow) (store : Store) (rows : List ExecutionRow)
    (e : Error)
    → Executions.create execution tenant attempt.workspace_id store.db.executions ≡ ok rows
    → at.audit_error ≡ some e
    → commit py attempt tenant at decision execution grants store
      ≡ failed attempt tenant at execution store
unfolding commit failed
commit-raised py attempt tenant at decision execution grants store rows e eq raised =
    rw (eq, raised, commit) refl

pub commit-IsAtomic :
    (py : Platform) (attempt : Attempt) (tenant : String) (at : Readings) (decision : Decision)
    (execution : GrantExecution) (grants : List GrantRow) (store : Store)
    → IsCharged decision store.db.grants grants
    → IsRecord at decision execution
    → IsAtomic py attempt tenant at store.db
        (commit py attempt tenant at decision execution grants store).1.db
unfolding commit decision_event
commit-IsAtomic py attempt tenant at decision execution grants store charged is_record =
    elim (Result-cases
      (Executions.create execution tenant attempt.workspace_id store.db.executions)) [
        | inl (e, eq) ↦ rw (eq, commit) (failed-IsAtomic py attempt tenant at execution store)
        | inr (rows, eq) ↦ elim (Option-cases at.audit_error) [
          | inr (e, raised) ↦
              subst (λ (o : Result Response × Store). IsAtomic py attempt tenant at store.db o.1.db)
                (sym (
                  commit-raised py attempt tenant at decision execution grants store rows e eq
                    raised))
                (failed-IsAtomic py attempt tenant at execution store)
          | inl quiet ↦
              let made =
                create-ok execution tenant attempt.workspace_id store.db.executions rows eq in
              let fresh = rw is_record.0 at made.0 in
              let added =
                ap (Executions.update_audit_event_id at.execution_id at.event_id) made.1
                ∙ update-added at.execution_id at.event_id store.db.executions
                    (row_of attempt tenant execution) fresh
                    ((eq_iff execution.id at.execution_id).1 is_record.0) in
              rw (eq, quiet, commit)
                (record {
                  all_or_none = inr (
                    decision,
                    record {
                      charged = charged;
                      requests = refl;
                      execution = record execution { audit_event_id = some at.event_id };
                      added = added;
                      recorded = is_record;
                      linked = refl;
                      event = _;
                      appended = refl;
                      event_id = refl;
                      event_approved = refl;
                      event_grant = refl;
                    },
                  );
                  undone = λ raised. absurd (raised refl);
                })
        ]
      ]
