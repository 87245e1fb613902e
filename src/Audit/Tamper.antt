-- ===== src/Audit/Tamper.antt =====
-- What the last hash of a verified log pins down, and what it does not.
use grantlayer.Prelude.{
  String, ◌≡◌, refl, ap, ◌∙◌, sym, Bool, false, Option, none, some, List, [], ◌∷◌, arith, length,
  ◌==◌, All, All-map, map, sort_by, if◌then◌else◌,
}
use grantlayer.Platform.{Platform, Json, null, boolean, text}
use grantlayer.Models.{AuditEvent}
use grantlayer.Audit.{compute_row_hash, sorted_payload, nullable}
use grantlayer.Audit.Verify.{IsLinked}
use grantlayer.Audit.Append.{tip}

-- The fields of a row that its hash covers; workspace_id, scope, reason_code and
-- constraint_violation are not among them.
pub record Content : Type 0 where
  pub id : String
  pub timestamp : String
  pub subject_id : String
  pub role : String
  pub action : String
  pub resource : String
  pub approved : Bool
  pub reason : String
  pub matched_grant_id : Option String
  pub challenge_id : Option String
  pub challenge_present : Bool
  pub challenge_result : String
  pub grant_signature_result : String
  pub prev_hash : Option String
  pub tenant_id : Option String

abbrev pub content : AuditEvent → Content
content row = record {
  id = row.id;
  timestamp = row.timestamp;
  subject_id = row.subject_id;
  role = row.role;
  action = row.action;
  resource = row.resource;
  approved = row.approved;
  reason = row.reason;
  matched_grant_id = row.matched_grant_id;
  challenge_id = row.challenge_id;
  challenge_present = row.challenge_present;
  challenge_result = row.challenge_result;
  grant_signature_result = row.grant_signature_result;
  prev_hash = row.prev_hash;
  tenant_id = row.tenant_id;
}

field : String → List (String × Json) → Json
field k [] = null
field k ((j, v) ∷ rest) = let later = field k rest in if j == k then v else later

as_text : Json → String
as_text (text s) = s
as_text v = ""

as_bool : Json → Bool
as_bool (boolean b) = b
as_bool v = false

as_nullable : Json → Option String
as_nullable (text s) = some s
as_nullable v = none

-- The content, read back from the hashed entries.
read : List (String × Json) → Content
read es = record {
  id = as_text (field "id" es);
  timestamp = as_text (field "timestamp" es);
  subject_id = as_text (field "subject_id" es);
  role = as_text (field "role" es);
  action = as_text (field "action" es);
  resource = as_text (field "resource" es);
  approved = as_bool (field "approved" es);
  reason = as_text (field "reason" es);
  matched_grant_id = as_nullable (field "matched_grant_id" es);
  challenge_id = as_nullable (field "challenge_id" es);
  challenge_present = as_bool (field "challenge_present" es);
  challenge_result = as_text (field "challenge_result" es);
  grant_signature_result = as_text (field "grant_signature_result" es);
  prev_hash = as_nullable (field "prev_hash" es);
  tenant_id = as_nullable (field "tenant_id" es);
}

as_nullable-nullable : (o : Option String) → as_nullable (nullable o) ≡ o
unfolding as_nullable
as_nullable-nullable none = refl
as_nullable-nullable (some s) = refl

read-at :
    (row : AuditEvent) (t : Option String)
    → row.tenant_id ≡ t
    → read (sorted_payload row row.prev_hash) ≡ content row
unfolding read field as_text as_bool as_nullable sorted_payload sort_by
read-at row none e = rw e (simp as_nullable-nullable)
read-at row (some t) e = rw e (simp as_nullable-nullable)

payload_inj :
    (a b : AuditEvent)
    → sorted_payload a a.prev_hash ≡ sorted_payload b b.prev_hash
    → content a ≡ content b
payload_inj a b h = sym (read-at a a.tenant_id refl) ∙ ap read h ∙ read-at b b.tenant_id refl

module _ (py : Platform) where
  -- No row of the one log and row of the other have the same hash over different entries.
  abbrev pub NoCollision : List AuditEvent → List AuditEvent → Type 0
  NoCollision xs ys =
      All
        (λ a.
          All
            (λ b.
              compute_row_hash py a a.prev_hash ≡ compute_row_hash py b b.prev_hash
              → sorted_payload a a.prev_hash ≡ sorted_payload b b.prev_hash)
            ys)
        xs

  NoCollision-tail :
      (a b : AuditEvent) (xs ys : List AuditEvent)
      → NoCollision (a ∷ xs) (b ∷ ys)
      → NoCollision xs ys
  NoCollision-tail a b xs ys h = All-map xs (λ x k. k.1) h.1

  same_content :
      (prev prev' : Option String) (xs ys : List AuditEvent)
      → length xs ≡ length ys
      → NoCollision xs ys
      → IsLinked py prev xs
      → IsLinked py prev' ys
      → tip prev xs ≡ tip prev' ys
      → (prev ≡ prev') × (map content xs ≡ map content ys)
  same_content prev prev' [] [] n c h k t = (t, refl)
  same_content prev prev' [] (y ∷ ys) n c h k t = absurd (omega arith)
  same_content prev prev' (x ∷ xs) [] n c h k t = absurd (omega arith)
  same_content prev prev' (x ∷ xs) (y ∷ ys) n c h k t =
      let rest =
        same_content x.row_hash y.row_hash xs ys (omega arith) (NoCollision-tail x y xs ys c) h.2
          k.2 t in
      let hx : x.row_hash ≡ some (compute_row_hash py x x.prev_hash) = simp h.0 h.1 in
      let hy : y.row_hash ≡ some (compute_row_hash py y y.prev_hash) = simp k.0 k.1 in
      let same : compute_row_hash py x x.prev_hash ≡ compute_row_hash py y y.prev_hash =
        cc (hx, hy, rest.0) in
      let contents = payload_inj x y (c.0.0 same) in
      (sym h.0 ∙ ap (λ (z : Content). z.prev_hash) contents ∙ k.0, cc (contents, rest.1))

  -- Two linked logs of one length that end in the same hash agree row by row on the fields that the
  -- hash covers: id, time, subject, role, action, resource, outcome, reason, matched grant, challenge
  -- id, presence and result, signature check, previous hash and tenant; workspace, scope, reason code
  -- and constraint violation are not among them. The hash has no collision between their rows.
  pub same_tip-same_content :
      (xs ys : List AuditEvent)
      → length xs ≡ length ys
      → NoCollision xs ys
      → IsLinked py none xs
      → IsLinked py none ys
      → tip none xs ≡ tip none ys
      → map content xs ≡ map content ys
  same_tip-same_content xs ys n c h k t = (same_content none none xs ys n c h k t).1
