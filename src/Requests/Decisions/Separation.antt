-- ===== src/Requests/Decisions/Separation.antt =====
-- Who may approve a request, over sequences of calls of the workflow.
use grantlayer.Prelude.{
  ℕ, String, ◌≡◌, refl, ◌≢◌, ap, sym, ◌∙◌, Option, some, List, [], ◌∷◌, arith, is_empty, any_where,
  select, All, All-append, All-map, Bool-cases, inl, inr,
}
use grantlayer.Result.{ok, after, ok-inj}
use grantlayer.Platform.{Platform}
use grantlayer.Models.{Grant, GrantRequest}
use grantlayer.Validation.{
  validate_string_length, max_short_id_length, max_role_length, max_name_length, max_reason_length,
}
use grantlayer.Database.{Database, RequestRow, Moment}
use grantlayer.Requests.{
  has_id, insert, or_default, require_tenant, create_grant_request, update_request, approve, deny,
  revoke, expire, is_pending,
}
use grantlayer.Requests.Rows.{
  IsKeyed, get-AreAll, update_request-All, update_request-IsKeyed, append-IsKeyed,
}
use grantlayer.Requests.Decisions.{
  approve_grant_request, deny_grant_request, revoke_grant_request, mark_all_expired,
  expire_old_requests,
}
use grantlayer.Requests.Decisions.Withdrawal.{
  deny_grant_request-requested, revoke_grant_request-approved,
}
use grantlayer.Requests.Decisions.Approval.{approve_grant_request-IsApproval}

-- Nobody has approved a request of their own.
abbrev pub IsSeparate : GrantRequest → Type 0
IsSeparate q = q.approved_by ≢ some q.requested_by

-- The ids of the requests differ, and nobody has approved a request of their own.
pub record IsSound (rows : List RequestRow) : Type 0 where
  pub keyed : IsKeyed rows
  pub separate : All (λ row. IsSeparate row.request) rows

-- An update that keeps the id, the requester and the approver keeps the table sound.
update-IsSound :
    (request_id : String) (f : GrantRequest → GrantRequest) (rows : List RequestRow)
    → ((q : GrantRequest) → (f q).id ≡ q.id)
    → ((q : GrantRequest) → IsSeparate q → IsSeparate (f q))
    → IsSound rows
    → IsSound (update_request request_id f rows)
update-IsSound request_id f rows ids keeps h = record {
  keyed = update_request-IsKeyed request_id f rows ids h.keyed;
  separate =
      update_request-All IsSeparate request_id f rows h.separate
        (All-map rows (λ r k _. keeps r.request k) h.separate);
}

insert-IsSound :
    (request : GrantRequest) (tenant_id workspace_id : String) (rows rows' : List RequestRow)
    → IsSound rows
    → insert request tenant_id workspace_id rows ≡ ok rows'
    → IsSound rows'
unfolding insert
insert-IsSound request t w rows rows' h e = elim (Bool-cases (is_empty w)) [
  | inl blank ↦ absurd (ground arith)
  | inr named ↦ elim (Bool-cases (any_where (has_id request.id) rows)) [
    | inl taken ↦ absurd (ground arith)
    | inr fresh ↦ rw (sym (ok-inj (rw (named, fresh) at e))) (record {
      keyed = append-IsKeyed rows _ fresh h.keyed;
      separate =
          (All-append (λ r. IsSeparate r.request) rows _).1
            (h.separate, (λ k. absurd (ground arith), tt));
    })
  ]
]

create-IsSound :
    (request : GrantRequest) (tenant_id workspace_id : Option String) (db db' : Database)
    → IsSound db.requests
    → create_grant_request request tenant_id workspace_id db ≡ ok db'
    → IsSound db'.requests
unfolding create_grant_request
create-IsSound request tenant_id workspace_id db db' h e =
    after (validate_string_length request.subject_id "subject_id" max_short_id_length) _ e λ _ _ e.
      after (validate_string_length request.role "role" max_role_length) _ e λ _ _ e.
        after (validate_string_length request.action "action" max_name_length) _ e λ _ _ e.
          after (validate_string_length request.resource "resource" max_name_length) _ e λ _ _ e.
            after (validate_string_length request.reason "reason" max_reason_length) _ e λ _ _ e.
              after (require_tenant tenant_id) _ e λ tenant _ e.
                after (insert request tenant (or_default workspace_id) db.requests) _ e
                  λ rows inserted e. rw (sym (ap (λ (d : Database). d.requests) (ok-inj e))) (
                    insert-IsSound request tenant (or_default workspace_id) db.requests rows h
                      inserted)

module _ (py : Platform) where
  approve-IsSound :
      (at : Moment) (request_id operator_id : String) (tenant_id workspace_id : Option String)
      (db db' : Database) (updated : GrantRequest) (grant : Grant)
      → IsSound db.requests
      → approve_grant_request py at request_id operator_id tenant_id workspace_id db
        ≡ ok (updated, grant, db')
      → IsSound db'.requests
  approve-IsSound at request_id operator_id tenant_id workspace_id db db' updated grant h e =
      let (tenant, q, _, a) =
        approve_grant_request-IsApproval py at request_id operator_id db db' updated grant tenant_id
          workspace_id e in
      let change = approve operator_id grant.id at.now in
      let only =
        get-AreAll request_id (some tenant) workspace_id db.requests q h.keyed a.is_there in
      rw a.requests (record {
        keyed = update_request-IsKeyed request_id change db.requests (λ _. refl) h.keyed;
        separate = update_request-All IsSeparate request_id change db.requests h.separate (
            All-map db.requests
              (λ r same hit own.
                a.is_separate
                  (ap (λ (x : GrantRequest). x.requested_by) (sym (same hit)) ∙ sym (ground arith)))
              only);
      })

  deny-IsSound :
      (at : Moment) (request_id operator_id reason : String)
      (tenant_id workspace_id : Option String) (db db' : Database) (updated : GrantRequest)
      → IsSound db.requests
      → deny_grant_request py at request_id operator_id reason tenant_id workspace_id db
        ≡ ok (updated, db')
      → IsSound db'.requests
  deny-IsSound at request_id operator_id reason tenant_id workspace_id db db' updated h e =
      let (_, _, _, decided, _) =
        deny_grant_request-requested py at request_id operator_id reason db db' updated tenant_id
          workspace_id e in
      rw decided.requests (
        update-IsSound request_id (deny operator_id reason at.now) db.requests (λ _. refl)
          (λ _ k. k) h)

  revoke-IsSound :
      (at : Moment) (request_id operator_id reason : String)
      (tenant_id workspace_id : Option String) (db db' : Database) (updated : GrantRequest)
      → IsSound db.requests
      → revoke_grant_request py at request_id operator_id reason tenant_id workspace_id db
        ≡ ok (updated, db')
      → IsSound db'.requests
  revoke-IsSound at request_id operator_id reason tenant_id workspace_id db db' updated h e =
      let (_, _, _, decided, _) =
        revoke_grant_request-approved py at request_id operator_id reason db db' updated tenant_id
          workspace_id e in
      rw decided.requests (
        update-IsSound request_id (revoke operator_id reason at.now) db.requests (λ _. refl)
          (λ _ k. k) h)

mark-All-IsSound :
    (now : String) (pending rows : List RequestRow)
    → IsSound rows
    → IsSound (mark_all_expired now pending rows)
unfolding mark_all_expired
mark-All-IsSound now [] rows h = h
mark-All-IsSound now (r ∷ pending) rows h =
    mark-All-IsSound now pending (update_request r.request.id (expire now) rows)
      (update-IsSound r.request.id (expire now) rows (λ _. refl) (λ _ k. k) h)

-- One call of the workflow that returns, by any caller with any arguments.
pub data Step (py : Platform) (db : Database) : Database → Type 0 where
  creates :
      (request : GrantRequest) (tenant_id workspace_id : Option String) {db' : Database}
      → create_grant_request request tenant_id workspace_id db ≡ ok db'
      → Step py db db'
  approves :
      (at : Moment) (request_id operator_id : String) (tenant_id workspace_id : Option String)
      {db' : Database} (updated : GrantRequest) (grant : Grant)
      → approve_grant_request py at request_id operator_id tenant_id workspace_id db
        ≡ ok (updated, grant, db')
      → Step py db db'
  denies :
      (at : Moment) (request_id operator_id reason : String)
      (tenant_id workspace_id : Option String) {db' : Database} (updated : GrantRequest)
      → deny_grant_request py at request_id operator_id reason tenant_id workspace_id db
        ≡ ok (updated, db')
      → Step py db db'
  revokes :
      (at : Moment) (request_id operator_id reason : String)
      (tenant_id workspace_id : Option String) {db' : Database} (updated : GrantRequest)
      → revoke_grant_request py at request_id operator_id reason tenant_id workspace_id db
        ≡ ok (updated, db')
      → Step py db db'
  expires :
      (at : Moment) (readings : ℕ → Moment) → Step py db (expire_old_requests py at readings db).1

pub data Reach (py : Platform) (db : Database) : Database → Type 0 where
  here : Reach py db db
  next : {db' db'' : Database} → Reach py db db' → Step py db' db'' → Reach py db db''

Step-IsSound :
    (py : Platform) {db db' : Database}
    → Step py db db'
    → IsSound db.requests
    → IsSound db'.requests
unfolding expire_old_requests
Step-IsSound py {db} {db'} (creates request t w e) h = create-IsSound request t w db db' h e
Step-IsSound py {db} {db'} (approves at id operator t w updated grant e) h =
    approve-IsSound py at id operator t w db db' updated grant h e
Step-IsSound py {db} {db'} (denies at id operator reason t w updated e) h =
    deny-IsSound py at id operator reason t w db db' updated h e
Step-IsSound py {db} {db'} (revokes at id operator reason t w updated e) h =
    revoke-IsSound py at id operator reason t w db db' updated h e
Step-IsSound py {db} (expires at readings) h =
    mark-All-IsSound at.now (select (is_pending at.day_ago) db.requests) db.requests h

-- Where the requests have ids that differ and none is approved by its own maker, that stays so
-- over any sequence of calls.
pub Reach-IsSound :
    (py : Platform) (db db' : Database)
    → IsSound db.requests
    → Reach py db db'
    → IsSound db'.requests
Reach-IsSound py db db' h here = h
Reach-IsSound py db db'' h (next {db'} before step) =
    Step-IsSound py step (Reach-IsSound py db db' h before)
