-- ===== src/Requests/Decisions/Withdrawal.antt =====
-- What a denial and a revocation have tested and what they write.
use grantlayer.Prelude.{String, ◌≡◌, refl, ap, sym, ◌∙◌, Option, some, false, [], ◌∷◌, Any, concat}
use mathlib.Core.Path.{subst}
use grantlayer.Result.{ok, after, ok-inj}
use grantlayer.Platform.{Platform}
use grantlayer.Models.{GrantRequest, AuditEvent}
use grantlayer.Validation.{validate_string_length, max_reason_length}
use grantlayer.Audit.{append_event_sqlite}
use grantlayer.Database.{Database, Moment}
use grantlayer.Requests.{require_tenant, get, update_request}
use grantlayer.Requests.Decisions.{
  request_event, found, has_status, deny_grant_request, revoke_grant_request,
}
use grantlayer.Requests.Decisions.Scoped.{
  IsPlaced, IsLinked, Changed, taken_back, get-IsPlaced, get-update, update_request-Changed,
  revoke_linked-Changed,
}
use grantlayer.Requests.Decisions.Approval.{found-ok, require_tenant-ok, has_status-ok}

-- The request with the columns of a denial.
abbrev pub refused : String → String → String → GrantRequest → GrantRequest
refused operator_id reason now q = record q {
  status = "denied";
  denied_by = some operator_id;
  denied_at = some now;
  denial_reason = some reason;
  updated_at = now;
}

-- The request with the columns of a revocation.
abbrev pub withdrawn : String → String → String → GrantRequest → GrantRequest
withdrawn operator_id reason now q = record q {
  status = "revoked";
  revoked_by = some operator_id;
  revoked_at = some now;
  revoked_reason = some reason;
  updated_at = now;
}

module _ (py : Platform) (at : Moment) (request_id operator_id reason : String) (db db' : Database)
    (updated : GrantRequest) where
  -- The one event that is appended is the operator's, and says that nothing was approved.
  pub record IsRefusal : Type 0 where
    pub event : AuditEvent
    pub appended : db'.audit_events ≡ append_event_sqlite py event db.audit_events
    pub unapproved : event.approved ≡ false
    pub by : event.subject_id ≡ operator_id

  -- What the call found in the scope, with this status, and how it changed the requests.
  pub record IsDecided (tenant : String) (workspace_id : Option String) (status : String)
      (f : GrantRequest → GrantRequest) (request : GrantRequest) : Type 0 where
    pub is_there : get request_id (some tenant) workspace_id db.requests ≡ some request
    pub placed : Any (IsPlaced request_id tenant workspace_id request) db.requests
    pub was : request.status ≡ status
    pub changed :
        Changed
          (λ row. row.request.id ≡ request_id)
          (λ row. record row { request = f row.request })
          db.requests
          db'.requests
    pub requests : db'.requests ≡ update_request request_id f db.requests
    pub returned : (q : GrantRequest) × (updated ≡ f q)
    pub recorded : IsRefusal
    pub executions : db'.executions ≡ db.executions

  module _ (tenant_id workspace_id : Option String) where
    -- A denial that returns was of a request of that id in the tenant, and in the workspace where
    -- one is given, that was open; its row, and no other, becomes denied by the operator, with the
    -- reason; grants and executions stay, and one event of the operator that approves nothing is
    -- appended.
    pub deny_grant_request-requested :
        deny_grant_request py at request_id operator_id reason tenant_id workspace_id db
          ≡ ok (updated, db')
        → (tenant : String) × (request : GrantRequest) × (tenant_id ≡ some tenant)
          × IsDecided tenant workspace_id "requested" (refused operator_id reason at.now) request
          × (db'.grants ≡ db.grants)
    unfolding deny_grant_request request_event
    deny_grant_request-requested h = after (require_tenant tenant_id) _ h λ tenant et h.
        after (validate_string_length reason "reason" max_reason_length) _ h λ _ _ h.
          let there = get request_id (some tenant) workspace_id db.requests in
          after (found request_id "" there) _ h λ q eq h.
            after (has_status "deny" request_id "requested" q) _ h λ _ es h.
              after (found request_id " after denial" _) _ h λ u eu h.
                let e_db = ap (λ (o : GrantRequest × Database). o.1) (ok-inj h) in
                let e_up = ap (λ (o : GrantRequest × Database). o.0) (ok-inj h) in
                let f = refused operator_id reason at.now in
                let again =
                  get-update request_id f db.requests u (λ x. refl)
                    (found-ok request_id " after denial" _ u eu) in
                (
                  tenant,
                  q,
                  require_tenant-ok tenant_id tenant et,
                  record {
                    is_there = found-ok request_id "" there q eq;
                    placed =
                        get-IsPlaced request_id tenant workspace_id q db.requests
                          (found-ok request_id "" there q eq);
                    was = has_status-ok "deny" request_id "requested" q es;
                    changed =
                        subst
                          (λ (d : Database).
                            Changed (λ row. row.request.id ≡ request_id)
                              (λ row. record row { request = f row.request }) db.requests
                              d.requests)
                          e_db (update_request-Changed request_id f db.requests);
                    requests = sym (ap (λ (d : Database). d.requests) e_db);
                    returned = (again.0, sym e_up ∙ again.1);
                    recorded = record {
                      event = _;
                      appended = sym (ap (λ (d : Database). d.audit_events) e_db);
                      unapproved = refl;
                      by = refl;
                    };
                    executions = sym (ap (λ (d : Database). d.executions) e_db);
                  },
                  sym (ap (λ (d : Database). d.grants) e_db),
                )

    -- A revocation that returns was of a request of that id in the tenant, and in the workspace
    -- where one is given, that was approved; its row, and no other, becomes revoked by the operator,
    -- with the reason; of the grants the one that the request names is revoked, where it is in that
    -- scope and not revoked yet, and no other row changes; executions stay, and one event of the
    -- operator that approves nothing is appended.
    pub revoke_grant_request-approved :
        revoke_grant_request py at request_id operator_id reason tenant_id workspace_id db
          ≡ ok (updated, db')
        → (tenant : String) × (request : GrantRequest) × (tenant_id ≡ some tenant)
          × IsDecided tenant workspace_id "approved" (withdrawn operator_id reason at.now) request
          × Changed
              (IsLinked tenant workspace_id request.grant_id)
              (taken_back operator_id (concat ("Revoked from request: " ∷ reason ∷ [])) at.now)
              db.grants
              db'.grants
    unfolding revoke_grant_request request_event
    revoke_grant_request-approved h =
        after (validate_string_length reason "reason" max_reason_length) _ h λ _ _ h.
          after (require_tenant tenant_id) _ h λ tenant et h.
            let there = get request_id (some tenant) workspace_id db.requests in
            after (found request_id "" there) _ h λ q eq h.
              after (has_status "revoke" request_id "approved" q) _ h λ _ es h.
                after (found request_id " after revocation" _) _ h λ u eu h.
                  let e_db = ap (λ (o : GrantRequest × Database). o.1) (ok-inj h) in
                  let e_up = ap (λ (o : GrantRequest × Database). o.0) (ok-inj h) in
                  let f = withdrawn operator_id reason at.now in
                  let again =
                    get-update request_id f db.requests u (λ x. refl)
                      (found-ok request_id " after revocation" _ u eu) in
                  (
                    tenant,
                    q,
                    require_tenant-ok tenant_id tenant et,
                    record {
                      is_there = found-ok request_id "" there q eq;
                      placed =
                          get-IsPlaced request_id tenant workspace_id q db.requests
                            (found-ok request_id "" there q eq);
                      was = has_status-ok "revoke" request_id "approved" q es;
                      changed =
                          subst
                            (λ (d : Database).
                              Changed (λ row. row.request.id ≡ request_id)
                                (λ row. record row { request = f row.request }) db.requests
                                d.requests)
                            e_db (update_request-Changed request_id f db.requests);
                      requests = sym (ap (λ (d : Database). d.requests) e_db);
                      returned = (again.0, sym e_up ∙ again.1);
                      recorded = record {
                        event = _;
                        appended = sym (ap (λ (d : Database). d.audit_events) e_db);
                        unapproved = refl;
                        by = refl;
                      };
                      executions = sym (ap (λ (d : Database). d.executions) e_db);
                    },
                    subst
                        (λ (d : Database).
                          Changed (IsLinked tenant workspace_id q.grant_id)
                            (taken_back operator_id
                              (concat ("Revoked from request: " ∷ reason ∷ [])) at.now)
                            db.grants d.grants)
                        e_db
                        (revoke_linked-Changed at operator_id reason tenant q.grant_id workspace_id
                          db.grants),
                  )
