-- ===== src/Examples/Scores.antt =====
-- A run of the score of evidence.
use grantlayer.Prelude.{◌≡◌, ◌↔◌, true, some, [], ◌∷◌, ◌==◌}
use grantlayer.Evidence.{AuditorReport, audit_readiness}
use grantlayer.Evidence.Complete.{IsReady, audit_readiness-IsReady}

abbrev archived : AuditorReport
archived = record {
  execution_present = true;
  evidence_present = true;
  verification_status = some "valid";
  provenance_events = 4;
  findings = "execution_failed" ∷ [];
  warnings = [];
}

audit_readiness-IsReady_example :
    (audit_readiness (λ s prefix. s == prefix) archived ≡ "ready")
    ↔ IsReady (λ s prefix. s == prefix) archived
audit_readiness-IsReady_example = audit_readiness-IsReady (λ s prefix. s == prefix) archived
