-- ===== src/Service/Witness.antt =====
-- The log beside the changes of the grant service (backend/src/grants/grant_service.py).
use grantlayer.Prelude.{
  ◌≤◌, ◌<◌, String, ◌≡◌, refl, sym, ap, ◌∙◌, ◌⊎◌, inl, inr, Option, none, some, [], ◌∷◌, arith,
  length, length-append, any_where, update_where, update_where-none, Bool-cases, if-true, if-false,
}
use grantlayer.Result.{ok, after, ok-inj}
use grantlayer.Platform.{Platform}
use grantlayer.Models.{Grant, AuditEvent}
use grantlayer.Audit.{append_event_sqlite, linked, get_latest_row_hash, get_next_seq_sqlite}
use grantlayer.Signing.{sign_grant, or_empty}
use grantlayer.Grants
use grantlayer.Database.{Database, Moment}
use grantlayer.Service.{
  grant_created_event, grant_revoked_event, grant_renewed_event, created_by_operator, logged,
  create_grant, revoke_grant, write_renewal, sign_and_renew, renew_found, renew_grant, get_grant,
}

-- One event about the grant is appended; the requests and the executions stay.
pub record IsWitnessed (py : Platform) (grant_id tenant_id workspace_id : String)
    (db db' : Database) : Type 0 where
  pub event : AuditEvent
  pub names : event.matched_grant_id ≡ some grant_id
  pub tenant : event.tenant_id ≡ some tenant_id
  pub workspace : event.workspace_id ≡ workspace_id
  pub audit_events : db'.audit_events ≡ append_event_sqlite py event db.audit_events
  pub requests : db'.requests ≡ db.requests
  pub executions : db'.executions ≡ db.executions

-- A call of the service, with any arguments and at any time.
pub data Step (py : Platform) (db : Database) : Database → Type 0 where
  creates :
      (at : Moment) (grant signed : Grant) (tenant_id workspace_id : String)
      (operator_id : Option String) {db' : Database}
      → create_grant py at grant tenant_id workspace_id operator_id db ≡ ok (signed, db')
      → Step py db db'
  revokes :
      (at : Moment) (grant_id tenant_id workspace_id revoked_by reason : String)
      → Step py db (revoke_grant py at grant_id tenant_id workspace_id revoked_by reason db).1
  renews :
      (at : Moment) (grant_id new_valid_until renewed_by tenant_id workspace_id : String)
      (renewed : Option Grant) {db' : Database}
      → renew_grant py at grant_id new_valid_until renewed_by tenant_id workspace_id db
        ≡ ok (renewed, db')
      → Step py db db'

-- The grant that a call is about, and its scope.
abbrev IsSilentOr : Platform → String → String → String → Database → Database → Type 0
IsSilentOr py grant_id tenant_id workspace_id db db' =
    (db' ≡ db) ⊎ IsWitnessed py grant_id tenant_id workspace_id db db'

module _ (py : Platform) (at : Moment) where
  logged-IsWitnessed :
      (grant_id tenant_id workspace_id : String) (event : AuditEvent) (db : Database) (rows : _)
      → event.matched_grant_id ≡ some grant_id
      → event.tenant_id ≡ some tenant_id
      → event.workspace_id ≡ workspace_id
      → IsWitnessed py grant_id tenant_id workspace_id db
          (logged py at event (record db { grants = rows }))
  unfolding logged
  logged-IsWitnessed grant_id tenant_id workspace_id event db rows names tenant workspace = record {
    event = event;
    names = names;
    tenant = tenant;
    workspace = workspace;
    audit_events = refl;
    requests = refl;
    executions = refl;
  }

  module _ (tenant_id workspace_id : String) (db : Database) where
    create_grant-IsWitnessed :
        (grant signed : Grant) (operator_id : Option String) {db' : Database}
        → create_grant py at grant tenant_id workspace_id operator_id db ≡ ok (signed, db')
        → IsWitnessed py signed.id tenant_id workspace_id db db'
    unfolding create_grant
    create_grant-IsWitnessed grant signed operator_id {db'} h =
        after (sign_grant py (created_by_operator operator_id grant)) _ h λ s es h1.
          after (Grants.create s tenant_id workspace_id db.grants) _ h1 λ rows er h2.
            let out = ok-inj h2 in
            let event = grant_created_event at s tenant_id workspace_id in
            let same : s ≡ signed = ap (λ p. p.0) out in
            let after_ : logged py at event (record db { grants = rows }) ≡ db' =
              ap (λ p. p.1) out in
            rw (sym same, sym after_)
              (logged-IsWitnessed s.id tenant_id workspace_id event db rows
                (unfold grant_created_event in refl) (unfold grant_created_event in refl)
                (unfold grant_created_event in refl))

    -- An update that meets no row leaves the database as it was.
    revoke_grant-IsWitnessed :
        (grant_id revoked_by reason : String)
        → IsSilentOr py grant_id tenant_id workspace_id db
            (revoke_grant py at grant_id tenant_id workspace_id revoked_by reason db).1
    unfolding revoke_grant Grants.revoke
    revoke_grant-IsWitnessed grant_id revoked_by reason =
        let open_ = Grants.is_open grant_id (some tenant_id) (some workspace_id) in
        let set = Grants.set_revoked revoked_by reason at.now in
        let event = grant_revoked_event at grant_id revoked_by reason tenant_id workspace_id in
        elim (Bool-cases (any_where open_ db.grants)) [
          | inl hit ↦ inr (
              rw hit (
                logged-IsWitnessed grant_id tenant_id workspace_id event db
                  (update_where open_ set db.grants) (unfold grant_revoked_event in refl)
                  (unfold grant_revoked_event in refl) (unfold grant_revoked_event in refl)))
          | inr miss ↦ inl (rw (miss, update_where-none open_ set db.grants miss) refl)
        ]

    write_renewal-IsWitnessed :
        (grant_id renewed_by : String) (grant signed : Grant)
        → IsSilentOr py grant_id tenant_id workspace_id db
            (write_renewal py at grant_id renewed_by tenant_id workspace_id grant signed db).1
    unfolding write_renewal Grants.renew
    write_renewal-IsWitnessed grant_id renewed_by grant signed =
        let open_ = Grants.is_open grant_id (some tenant_id) (some workspace_id) in
        let set =
          Grants.set_renewed signed.valid_until (or_empty signed.signature)
            (or_empty signed.payload_hash) (or_empty signed.signing_key_id) in
        let event =
          grant_renewed_event at grant_id renewed_by grant.valid_until signed.valid_until tenant_id
            workspace_id in
        elim (Bool-cases (any_where open_ db.grants)) [
          | inl hit ↦ inr (
              rw hit (
                logged-IsWitnessed grant_id tenant_id workspace_id event db
                  (update_where open_ set db.grants) (unfold grant_renewed_event in refl)
                  (unfold grant_renewed_event in refl) (unfold grant_renewed_event in refl)))
          | inr miss ↦ inl (rw (miss, update_where-none open_ set db.grants miss) refl)
        ]

    sign_and_renew-IsWitnessed :
        (grant_id new_valid_until renewed_by : String) (grant : Grant) (renewed : Option Grant)
        {db' : Database}
        → sign_and_renew py at grant_id new_valid_until renewed_by tenant_id workspace_id db grant
          ≡ ok (renewed, db')
        → IsSilentOr py grant_id tenant_id workspace_id db db'
    unfolding sign_and_renew
    sign_and_renew-IsWitnessed grant_id new_valid_until renewed_by grant renewed {db'} h =
        after (sign_grant py (record grant { valid_until = new_valid_until })) _ h λ s es h1.
          let written = write_renewal py at grant_id renewed_by tenant_id workspace_id grant s db in
          let same : written.1 ≡ db' = ap (λ p. p.1) (ok-inj h1) in
          rw (sym same) (write_renewal-IsWitnessed grant_id renewed_by grant s)

    renew_found-IsWitnessed :
        (grant_id new_valid_until renewed_by : String) (found renewed : Option Grant)
        {db' : Database}
        → renew_found py at grant_id new_valid_until renewed_by tenant_id workspace_id db found
          ≡ ok (renewed, db')
        → IsSilentOr py grant_id tenant_id workspace_id db db'
    unfolding renew_found
    renew_found-IsWitnessed grant_id new_valid_until renewed_by none renewed h =
        inl (sym (ap (λ p. p.1) (ok-inj h)))
    renew_found-IsWitnessed grant_id new_valid_until renewed_by (some grant) renewed h =
        elim (Bool-cases grant.revoked) [
          | inl gone ↦ inl (sym (ap (λ p. p.1) (ok-inj (sym (if-true grant.revoked _ _ gone) ∙ h))))
          | inr open_ ↦
              sign_and_renew-IsWitnessed grant_id new_valid_until renewed_by grant renewed
                (sym (if-false grant.revoked _ _ open_) ∙ h)
        ]

-- A call of the service that returns either leaves the database as it was, or appends exactly one
-- event, which names a grant, the tenant and the workspace of the call.
pub Step-IsWitnessed :
    (py : Platform) {db db' : Database}
    → Step py db db'
    → (db' ≡ db)
      ⊎ ((grant_id : String) × (tenant_id : String) × (workspace_id : String) × IsWitnessed py
            grant_id tenant_id workspace_id db db')
unfolding renew_grant
Step-IsWitnessed py (creates at grant signed t w operator_id e) =
    inr (signed.id, t, w, create_grant-IsWitnessed py at t w _ grant signed operator_id e)
Step-IsWitnessed py {db} (revokes at grant_id t w revoked_by reason) =
    elim (revoke_grant-IsWitnessed py at t w db grant_id revoked_by reason) [
      | inl same ↦ inl same
      | inr told ↦ inr (grant_id, t, w, told)
    ]
Step-IsWitnessed py {db} (renews at grant_id new_valid_until renewed_by t w renewed e) =
    elim (renew_found-IsWitnessed py at t w db grant_id new_valid_until renewed_by
      (get_grant grant_id t w db) renewed e) [
        | inl same ↦ inl same
        | inr told ↦ inr (grant_id, t, w, told)
      ]

pub data Reach (py : Platform) (db : Database) : Database → Type 0 where
  here : Reach py db db
  next : {db' db'' : Database} → Reach py db db' → Step py db' db'' → Reach py db db''

-- No call takes an event away, and one that adds none leaves the database as it was.
Step-grows :
    (py : Platform) {db db' : Database}
    → Step py db db'
    → (db' ≡ db) ⊎ (length db.audit_events < length db'.audit_events)
unfolding append_event_sqlite
Step-grows py {db} s = elim (Step-IsWitnessed py s) [
  | inl same ↦ inl same
  | inr (grant_id, t, w, told) ↦ inr (
      rw told.audit_events (
        ground (
          arith,
          length-append db.audit_events (
              linked py told.event (get_latest_row_hash db.audit_events)
                (get_next_seq_sqlite db.audit_events)
              ∷ []),
        )))
]

Reach-grows :
    (py : Platform) {db db' : Database}
    → Reach py db db'
    → (length db.audit_events ≤ length db'.audit_events)
      × (length db'.audit_events ≤ length db.audit_events → db' ≡ db)
Reach-grows py here = (omega arith, λ h. refl)
Reach-grows py (next r s) = elim (Step-grows py s) [
  | inl same ↦ rw same (Reach-grows py r)
  | inr more ↦
      let before_ = (Reach-grows py r).0 in
      (omega (arith, before_), λ h. absurd (omega (arith, before_, h)))
]

-- Over any sequence of calls of the service, at any times, no change goes unwitnessed: where the
-- log is not longer than before, the database is the one before.
pub Reach-unchanged :
    (py : Platform) (db db' : Database)
    → Reach py db db'
    → length db'.audit_events ≤ length db.audit_events
    → db' ≡ db
Reach-unchanged py db db' reach short = (Reach-grows py reach).1 short
