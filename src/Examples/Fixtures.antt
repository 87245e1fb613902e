-- ===== src/Examples/Fixtures.antt =====
-- The platform and the records that the examples share.
use grantlayer.Prelude.{
  String, true, false, none, some, refl, List, [], ◌∷◌, ◌==◌, concat, map, if◌then◌else◌,
}
use grantlayer.Prelude.Int.{pos}
use grantlayer.Signing.Trust.{IsSound}
use grantlayer.Platform.{Platform, aware, dict, Json, integer, text}
use grantlayer.Result.{Result, ok, err}
use grantlayer.Models.{Grant, AccessRequest, AuditEvent, GrantRequest}
use grantlayer.Grants.{GrantRow}
use grantlayer.Challenges.{ChallengeRow}
use grantlayer.Database.{RequestRow, Database, Moment}

abbrev value_text : Json → String
value_text (text s) = s
value_text _ = ""

-- What a call returned, or the default where it raised.
abbrev pub value_or {ℓ} : {A : Type ℓ} → A → Result A → A
value_or default (ok a) = a
value_or default (err e) = default

-- Two dates parse, one text of limits is JSON, and the hash keeps its text.
abbrev pub toy : Platform
toy = record {
  fromisoformat = λ s.
      if s == "2026-01-01T00:00:00+00:00"
      then some (aware 100)
      else if s == "2026-12-31T00:00:00+00:00"
      then some (aware 900)
      else none;
  loads = λ s.
      if s == "{\"max_fee_lovelace\": 5}"
      then some (dict (("max_fee_lovelace", integer (pos 5)) ∷ []))
      else none;
  dumps = λ es. concat (map (λ e. value_text e.1) es);
  sha256 = λ s. s;
  keyring = λ id. if id == "key-1" then some "public-1" else none;
  key_id = "key-1";
  sign = λ s. "signature";
  verify = λ key signature message. signature == "signature";
}

-- The same with a hash of one value.
abbrev pub flat : Platform
flat = record toy { sha256 = λ s. "hash" }

pub flat-IsSound : IsSound flat
flat-IsSound = record {
  accepts = λ public_key message e. refl;
  signs = λ message. refl;
  hashes = λ message. refl;
  has_id = refl;
}

abbrev pub deploy : Grant
deploy = record {
  subject_id = "ann";
  role = "agent";
  action = "deploy";
  resource = "*";
  valid_from = "2026-01-01T00:00:00Z";
  valid_until = "2026-12-31T00:00:00Z";
  created_by = "root";
  reason = "release";
  id = "grant-1";
  revoked = false;
  revoked_by = none;
  revoked_reason = none;
  revoked_at = none;
  created_at = "2026-01-01T00:00:00Z";
  signature = none;
  signing_key_id = none;
  payload_hash = none;
  max_uses = some 2;
  use_count = 0;
  constraints = none;
}

abbrev pub withdrawn : Grant
withdrawn = record deploy { id = "grant-0"; revoked = true }

abbrev pub request : AccessRequest
request = record {
  subject_id = "ann";
  role = "agent";
  action = "deploy";
  resource = "host-1";
  attempted_fee_lovelace = none;
  wallet_balance_lovelace = none;
}

abbrev pub row_of : Grant → GrantRow
row_of grant = record { grant = grant; tenant_id = "acme"; workspace_id = "default" }

abbrev pub table : List GrantRow
table = row_of withdrawn ∷ row_of deploy ∷ []

abbrev pub event : AuditEvent
event = record {
  subject_id = "ann";
  role = "agent";
  action = "deploy";
  resource = "host-1";
  approved = true;
  reason = "Access granted";
  workspace_id = "default";
  matched_grant_id = some "grant-1";
  challenge_id = none;
  challenge_present = false;
  challenge_result = "legacy_mode";
  grant_signature_result = "valid";
  id = "event-1";
  timestamp = "2026-03-01T00:00:00Z";
  row_hash = none;
  prev_hash = none;
  tenant_id = some "acme";
  scope = some "tenant";
  reason_code = none;
  constraint_violation = none;
  seq = none;
}

abbrev pub challenge_row : ChallengeRow
challenge_row = record {
  challenge = record {
    subject_id = "ann";
    action = "deploy";
    resource = "host-1";
    id = "challenge-1";
    created_at = "2026-03-01T00:00:00Z";
    expires_at = "2026-03-01T00:05:00Z";
    used_at = none;
    status = "active";
  };
  tenant_id = "acme";
  workspace_id = "default";
}

abbrev pub wish : GrantRequest
wish = record {
  subject_id = "ann";
  role = "agent";
  action = "deploy";
  resource = "*";
  valid_from = "2026-01-01T00:00:00Z";
  valid_until = "2026-12-31T00:00:00Z";
  requested_by = "ann";
  reason = "release";
  id = "request-1";
  status = "requested";
  approved_by = none;
  approved_at = none;
  denied_by = none;
  denied_at = none;
  denial_reason = none;
  revoked_by = none;
  revoked_at = none;
  revoked_reason = none;
  grant_id = none;
  created_at = "2026-03-01T00:00:00Z";
  updated_at = "2026-03-01T00:00:00Z";
}

abbrev pub wish_row : RequestRow
wish_row = record { request = wish; tenant_id = some "acme"; workspace_id = some "default" }

abbrev pub office : Database
office = record { grants = []; requests = wish_row ∷ []; executions = []; audit_events = [] }

abbrev pub at_noon : Moment
at_noon = record {
  now = "2026-03-01T12:00:00Z";
  day_ago = "2026-02-28T12:00:00Z";
  grant_id = "grant-9";
  event_id = "event-9";
}
