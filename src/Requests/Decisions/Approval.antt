-- ===== src/Requests/Decisions/Approval.antt =====
-- What an approval has tested and what it writes.
use mathlib.Core.Path.{subst}
use grantlayer.Prelude.{
  ◌++◌, Any, String, ◌≡◌, refl, ◌≢◌, ap, sym, ◌∙◌, Bool, true, false, Option, none, some, [], ◌∷◌,
  arith, eq_iff, ◌==◌, before, concat,
}
use grantlayer.Result.{ok, raise_if, after, ok-inj}
use grantlayer.Platform.{Platform}
use grantlayer.Models.{Grant, GrantRequest, AuditEvent}
use grantlayer.Signing.{sign_grant}
use grantlayer.Grants
use grantlayer.Grants.{GrantRow}
use grantlayer.Database.{Database, Moment}
use grantlayer.Requests.{or_default, require_tenant, get, update_request, approve}
use grantlayer.Requests.Decisions.{
  requested_grant, request_event, found, has_status, write_approval, approve_grant_request,
}
use grantlayer.Requests.Decisions.Scoped.{IsPlaced, Changed, get-IsPlaced, update_request-Changed}
use grantlayer.Audit.{append_event_sqlite}
use grantlayer.Requests.Decisions.Terms.{
  HasTerms, sign_grant-HasTerms, granted, new_row, create-new_row,
}

pub found-ok :
    (request_id phase : String) (o : Option GrantRequest) (q : GrantRequest)
    → found request_id phase o ≡ ok q
    → o ≡ some q
unfolding found
found-ok request_id phase none q h = absurd (ground arith)
found-ok request_id phase (some r) q h = ground arith

pub require_tenant-ok :
    (tenant_id : Option String) (t : String) → require_tenant tenant_id ≡ ok t → tenant_id ≡ some t
unfolding require_tenant
require_tenant-ok none t h = absurd (ground arith)
require_tenant-ok (some s) t h = ground arith

pub raise_if-ok : (b : Bool) (e : _) {u : Unit} → raise_if b e ≡ ok u → b ≡ false
raise_if-ok true e h = absurd (ground arith)
raise_if-ok false e h = refl

pub has_status-ok :
    (verb request_id wanted : String) (q : GrantRequest) {u : Unit}
    → has_status verb request_id wanted q ≡ ok u
    → q.status ≡ wanted
unfolding has_status
has_status-ok verb request_id wanted q h = ground (arith, eq_iff q.status wanted)

module _ (py : Platform) (at : Moment) (request_id operator_id : String) (db db' : Database)
    (updated : GrantRequest) (grant : Grant) where
  -- The request was open, not over a day old and not of the operator's own making; one signed
  -- grant of its terms is added, and one event.
  pub record IsApproval (tenant : String) (workspace_id : Option String) (request : GrantRequest)
      : Type 0 where
    pub is_there : get request_id (some tenant) workspace_id db.requests ≡ some request
    pub placed : Any (IsPlaced request_id tenant workspace_id request) db.requests
    pub is_open : request.status ≡ "requested"
    pub is_fresh : before request.created_at at.day_ago ≡ false
    pub is_separate : request.requested_by ≢ operator_id
    pub is_signed : sign_grant py (requested_grant at request_id operator_id request) ≡ ok grant
    pub terms : HasTerms at operator_id request grant
    pub added : db'.grants ≡ db.grants ++ new_row grant tenant (or_default workspace_id) ∷ []
    pub changed :
        Changed
          (λ row. row.request.id ≡ request_id)
          (λ row. record row { request = granted operator_id at.grant_id at.now row.request })
          db.requests
          db'.requests
    pub event : AuditEvent
    pub appended : db'.audit_events ≡ append_event_sqlite py event db.audit_events
    pub says_approved : event.approved ≡ true
    pub by : event.subject_id ≡ operator_id
    pub grants : Grants.create grant tenant (or_default workspace_id) db.grants ≡ ok db'.grants
    pub requests :
        db'.requests ≡ update_request request_id (approve operator_id grant.id at.now) db.requests
    pub result : get request_id none none db'.requests ≡ some updated
    pub audit_events :
        db'.audit_events
        ≡ append_event_sqlite py
            (request_event at request_id operator_id "operator" true
              (concat ("Grant request " ∷ request_id ∷ " approved" ∷ []))
              (some tenant)
              (or_default workspace_id)
              "tenant"
              "approve_grant_request")
            db.audit_events
    pub executions : db'.executions ≡ db.executions

  write_approval-IsApproval :
      (tenant : String) (workspace_id : Option String) (q : GrantRequest)
      → get request_id (some tenant) workspace_id db.requests ≡ some q
      → q.status ≡ "requested"
      → before q.created_at at.day_ago ≡ false
      → q.requested_by ≢ operator_id
      → write_approval py at request_id operator_id tenant (or_default workspace_id) q db
        ≡ ok (updated, grant, db')
      → IsApproval tenant workspace_id q
  unfolding write_approval request_event
  write_approval-IsApproval tenant workspace_id q is_there is_open is_fresh is_separate h =
      after (sign_grant py (requested_grant at request_id operator_id q)) _ h λ signed eg h1.
        after (Grants.create signed tenant (or_default workspace_id) db.grants) _ h1 λ grants ec h2.
          after (found request_id " after approval" _) _ h2 λ u eu h3.
            let Out = GrantRequest × Grant × Database in
            let p = ok-inj h3 in
            let e_grant = ap (λ (o : Out). o.1) p in
            let e_db = ap (λ (o : Out). o.2) p in
            let e_found = found-ok request_id " after approval" _ u eu in
            let e_requests = ap (λ (d : Database). d.requests) e_db in
            let signed_as = eg ∙ ap ok e_grant in
            let terms = sign_grant-HasTerms py at request_id operator_id q grant signed_as in
            let created : Grants.create grant tenant (or_default workspace_id) db.grants
                ≡ ok db'.grants =
              cc (ec, e_grant, ap (λ (d : Database). d.grants) e_db) in
            let marked : db'.requests
                ≡ update_request request_id (granted operator_id at.grant_id at.now) db.requests =
              sym e_requests
              ∙ ap (λ i. update_request request_id (granted operator_id i at.now) db.requests)
                  (ap (λ (g : Grant). g.id) e_grant ∙ terms.id) in
            record {
              is_there = is_there;
              placed = get-IsPlaced request_id tenant workspace_id q db.requests is_there;
              terms = terms;
              added =
                  create-new_row grant tenant (or_default workspace_id) db.grants db'.grants
                    created;
              changed =
                  subst
                    (Changed (λ row. row.request.id ≡ request_id)
                      (λ row. record row {
                        request = granted operator_id at.grant_id at.now row.request;
                      })
                      db.requests)
                    (sym marked)
                    (update_request-Changed request_id (granted operator_id at.grant_id at.now)
                      db.requests);
              event = _;
              appended = sym (ap (λ (d : Database). d.audit_events) e_db);
              says_approved = refl;
              by = refl;
              is_open = is_open;
              is_fresh = is_fresh;
              is_separate = is_separate;
              is_signed = signed_as;
              grants = created;
              requests = cc (e_grant, ap (λ (d : Database). d.requests) e_db);
              result =
                  cc (e_found, ap (λ (o : Out). o.0) p, ap (λ (d : Database). d.requests) e_db);
              audit_events = sym (ap (λ (d : Database). d.audit_events) e_db);
              executions = sym (ap (λ (d : Database). d.executions) e_db);
            }

  -- An approval that returns was of a request of that id in the tenant, and in the workspace where
  -- one is given, that was open, not over a day old and not of the operator's own making; it adds one
  -- row with a signed grant of the request's terms, marks the request's row, and no other, as
  -- approved with that grant, and appends one event of the operator that approves.
  pub approve_grant_request-IsApproval :
      (tenant_id workspace_id : Option String)
      → approve_grant_request py at request_id operator_id tenant_id workspace_id db
        ≡ ok (updated, grant, db')
      → (tenant : String) × (request : GrantRequest) × (tenant_id ≡ some tenant)
        × IsApproval tenant workspace_id request
  unfolding approve_grant_request write_approval
  approve_grant_request-IsApproval tenant_id workspace_id h =
      after (require_tenant tenant_id) _ h λ tenant et h1.
        let there = get request_id (some tenant) workspace_id db.requests in
        after (found request_id "" there) _ h1 λ q eq h2.
          after (has_status "approve" request_id "requested" q) _ h2 λ _ es h3.
            after (raise_if (before q.created_at at.day_ago) _) _ h3 λ _ ef h4.
              after (raise_if (q.requested_by == operator_id) _) _ h4 λ _ eo h5. (
                tenant,
                q,
                require_tenant-ok tenant_id tenant et,
                write_approval-IsApproval tenant workspace_id q (found-ok request_id "" there q eq)
                    (has_status-ok "approve" request_id "requested" q es)
                    (raise_if-ok (before q.created_at at.day_ago) _ ef)
                    (λ same. absurd (
                      cc (
                        raise_if-ok (q.requested_by == operator_id) _ eo,
                        (eq_iff q.requested_by operator_id).1 same,
                      )))
                    h5,
              )
