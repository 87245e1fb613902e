-- ===== src/Models.antt =====
-- The data model (backend/src/core/models.py): the dataclasses that the components exchange.
use grantlayer.Prelude.{ℕ, String, Bool, Option}
use grantlayer.Prelude.Int.{ℤ}

pub record Grant : Type 0 where
  pub subject_id : String
  pub role : String
  pub action : String
  pub resource : String
  pub valid_from : String
  pub valid_until : String
  pub created_by : String
  pub reason : String
  pub id : String
  pub revoked : Bool
  pub revoked_by : Option String
  pub revoked_reason : Option String
  pub revoked_at : Option String
  pub created_at : String
  pub signature : Option String
  pub signing_key_id : Option String
  pub payload_hash : Option String
  pub max_uses : Option ℕ
  pub use_count : ℕ
  pub constraints : Option String

pub record AccessRequest : Type 0 where
  pub subject_id : String
  pub role : String
  pub action : String
  pub resource : String
  pub attempted_fee_lovelace : Option ℤ
  pub wallet_balance_lovelace : Option ℤ

pub record PolicyResult : Type 0 where
  pub approved : Bool
  pub reason : String
  pub matched_grant_id : Option String
  pub reason_code : Option String
  pub constraint_violation : Option String

pub record Challenge : Type 0 where
  pub subject_id : String
  pub action : String
  pub resource : String
  pub id : String
  pub created_at : String
  pub expires_at : String
  pub used_at : Option String
  pub status : String

pub record AuditEvent : Type 0 where
  pub subject_id : String
  pub role : String
  pub action : String
  pub resource : String
  pub approved : Bool
  pub reason : String
  pub workspace_id : String
  pub matched_grant_id : Option String
  pub challenge_id : Option String
  pub challenge_present : Bool
  pub challenge_result : String
  pub grant_signature_result : String
  pub id : String
  pub timestamp : String
  pub row_hash : Option String
  pub prev_hash : Option String
  pub tenant_id : Option String
  pub scope : Option String
  pub reason_code : Option String
  pub constraint_violation : Option String
  pub seq : Option ℕ

pub record GrantRequest : Type 0 where
  pub subject_id : String
  pub role : String
  pub action : String
  pub resource : String
  pub valid_from : String
  pub valid_until : String
  pub requested_by : String
  pub reason : String
  pub id : String
  pub status : String
  pub approved_by : Option String
  pub approved_at : Option String
  pub denied_by : Option String
  pub denied_at : Option String
  pub denial_reason : Option String
  pub revoked_by : Option String
  pub revoked_at : Option String
  pub revoked_reason : Option String
  pub grant_id : Option String
  pub created_at : String
  pub updated_at : String

pub record GrantExecution : Type 0 where
  pub action : String
  pub resource : String
  pub id : String
  pub grant_id : Option String
  pub grant_request_id : Option String
  pub operator_id : Option String
  pub challenge_id : Option String
  pub challenge_result : Option String
  pub policy_result : String
  pub result : String
  pub error_code : Option String
  pub executed_at : String
  pub audit_event_id : Option String
  pub metadata_json : Option String
