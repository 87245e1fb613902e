-- ===== src/Service.antt =====
-- The grant service (backend/src/grants/grant_service.py): GrantService, which signs, writes the
-- grant table and the log in one transaction. An exception leaves the database as it was.
pub mod Webhooks
pub mod Witness
pub mod Renewal
use grantlayer.Prelude.{
  ℕ, String, Bool, true, false, Option, none, some, List, [], ◌∷◌, concat, is_empty, if◌then◌else◌,
}
use grantlayer.Result.{Result, ok, err, ◌>>=◌, ◌>>◌}
use grantlayer.Platform.{Platform}
use grantlayer.Models.{Grant, AuditEvent}
use grantlayer.Audit.{append_event_sqlite}
use grantlayer.Signing.{sign_grant, or_empty}
use grantlayer.Grants
use grantlayer.Database.{Database, Moment}
use grantlayer.Requests.Decisions.{decision_event}

unfoldable pub grant_revoked_event :
    Moment → String → String → String → String → String → AuditEvent
unfolding decision_event
grant_revoked_event at grant_id revoked_by reason tenant_id workspace_id =
    record (decision_event at revoked_by "operator" "grant_revoked" true
      (concat ("grant_revoked: " ∷ reason ∷ [])) (some tenant_id) workspace_id "tenant") {
        resource = concat ("grant/" ∷ grant_id ∷ []);
        matched_grant_id = some grant_id;
      }

unfoldable pub grant_renewed_event :
    Moment → String → String → String → String → String → String → AuditEvent
unfolding decision_event
grant_renewed_event at grant_id renewed_by old_valid_until new_valid_until tenant_id workspace_id =
    record (decision_event at renewed_by "operator" "grant_renewed" true
      (concat ("grant_renewed: validUntil " ∷ old_valid_until ∷ " -> " ∷ new_valid_until ∷ []))
      (some tenant_id) workspace_id "tenant") {
        resource = concat ("grant/" ∷ grant_id ∷ []);
        matched_grant_id = some grant_id;
      }

-- The event of a creation.
unfoldable pub grant_created_event : Moment → Grant → String → String → AuditEvent
unfolding decision_event
grant_created_event at grant tenant_id workspace_id =
    record (decision_event at grant.subject_id grant.role grant.action true
      (concat ("grant_created: " ∷ grant.reason ∷ [])) (some tenant_id) workspace_id "tenant") {
        resource = grant.resource;
        matched_grant_id = some grant.id;
        grant_signature_result = "valid";
      }

unfoldable pub get_grant : String → String → String → Database → Option Grant
get_grant grant_id tenant_id workspace_id db =
    Grants.get grant_id (some tenant_id) (some workspace_id) db.grants

unfoldable pub list_grants : String → String → ℕ → ℕ → Database → List Grant × ℕ
list_grants tenant_id workspace_id limit offset db = (
  Grants.list (some tenant_id) (some workspace_id) (some limit) offset db.grants,
  Grants.count (some tenant_id) (some workspace_id) db.grants,
)

-- `if operator_id: grant.created_by = operator_id`
unfoldable pub created_by_operator : Option String → Grant → Grant
created_by_operator none grant = grant
created_by_operator (some o) grant = if is_empty o then grant else record grant { created_by = o }

module _ (py : Platform) (at : Moment) where
  unfoldable pub logged : AuditEvent → Database → Database
  logged event db = record db { audit_events = append_event_sqlite py event db.audit_events }

  unfoldable pub create_grant :
      Grant → String → String → Option String → Database → Result (Grant × Database)
  unfolding created_by_operator logged grant_created_event
  create_grant grant tenant_id workspace_id operator_id db = do
    signed ← sign_grant py (created_by_operator operator_id grant)
    rows ← Grants.create signed tenant_id workspace_id db.grants
    ok (
      signed,
      logged (grant_created_event at signed tenant_id workspace_id) (record db { grants = rows }),
    )

  unfoldable pub revoke_grant :
      String → String → String → String → String → Database → Bool × Database
  unfolding logged grant_revoked_event
  revoke_grant grant_id tenant_id workspace_id revoked_by reason db =
      let out =
        Grants.revoke at.now grant_id revoked_by reason (some tenant_id) (some workspace_id)
          db.grants in
      let db' = record db { grants = out.1 } in
      let event = grant_revoked_event at grant_id revoked_by reason tenant_id workspace_id in
      (out.0, if out.0 then logged event db' else db')

  -- The guarded UPDATE with the new date and signature, and its event; `grant` is what was read.
  unfoldable pub write_renewal :
      String → String → String → String → Grant → Grant → Database → Option Grant × Database
  unfolding logged grant_renewed_event or_empty
  write_renewal grant_id renewed_by tenant_id workspace_id grant signed db =
      let out =
        Grants.renew grant_id signed.valid_until (or_empty signed.signature)
          (or_empty signed.payload_hash) (or_empty signed.signing_key_id) (some tenant_id)
          (some workspace_id) db.grants in
      let db' = record db { grants = out.1 } in
      let event =
        grant_renewed_event at grant_id renewed_by grant.valid_until signed.valid_until tenant_id
          workspace_id in
      if out.0 then (some signed, logged event db') else (none, db')

  -- The grant that was read gets the new date and a signature over it.
  unfoldable pub sign_and_renew :
      String
      → String
      → String
      → String
      → String
      → Database
      → Grant
      → Result (Option Grant × Database)
  unfolding write_renewal
  sign_and_renew grant_id new_valid_until renewed_by tenant_id workspace_id db grant =
      sign_grant py (record grant { valid_until = new_valid_until })
      >>= (λ signed. ok (write_renewal grant_id renewed_by tenant_id workspace_id grant signed db))

  unfoldable pub renew_found :
      String
      → String
      → String
      → String
      → String
      → Database
      → Option Grant
      → Result (Option Grant × Database)
  renew_found grant_id new_valid_until renewed_by tenant_id workspace_id db none = ok (none, db)
  renew_found grant_id new_valid_until renewed_by tenant_id workspace_id db (some grant) =
      let rest =
        sign_and_renew grant_id new_valid_until renewed_by tenant_id workspace_id db grant in
      if grant.revoked then ok (none, db) else rest

  unfoldable pub renew_grant :
      String → String → String → String → String → Database → Result (Option Grant × Database)
  unfolding renew_found get_grant
  renew_grant grant_id new_valid_until renewed_by tenant_id workspace_id db =
      renew_found grant_id new_valid_until renewed_by tenant_id workspace_id db
        (get_grant grant_id tenant_id workspace_id db)
