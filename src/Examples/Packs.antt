-- ===== src/Examples/Packs.antt =====
-- A run of a policy pack.
use grantlayer.Prelude.{ℕ, true, none, some, [], ◌∷◌, ltb}
use grantlayer.Prelude.Int.{pos}
use grantlayer.Platform.{integer, aware}
use grantlayer.Policy.Requirements.Rules.{Reader, PolicyPack, Subject, stamp}
use grantlayer.Policy.Requirements.Reports.{Upstream, absent, other, dict}
use grantlayer.Examples.Approvals.{number}

-- Every date is the instant 100.
abbrev reader : Reader
reader = record {
  lower = λ s. s;
  Float = ℕ;
  float = number;
  exceeds = λ x y. ltb y x;
  fromisoformat = λ s. some (aware 100);
}

abbrev travel : PolicyPack
travel = record {
  policy_pack_id = "travel";
  required_evidence = some (some (record { kind = "receipt"; required = true }) ∷ none ∷ []);
  exclusions = some (some (record { code = "fraud"; severity = "blocking" }) ∷ []);
  deadlines = some (some (record { due_at = stamp "2030"; required = true; name = "filing" }) ∷ []);
  amount_limits = some (record { max_amount = integer (pos 500); currency = "EUR" });
  required_roles = "owner" ∷ [];
}

abbrev trip : Subject
trip = record {
  evidence_types = "receipt" ∷ [];
  exclusion_codes = [];
  amount = integer (pos 500);
  currency = "EUR";
}

abbrev reports : Upstream
reports = record {
  evidence_completeness = dict true;
  compliance_gap_report = absent;
  permission_result = other;
  approval_requirement = dict (some "approved");
  approval_lifecycle = absent;
  decision_provenance = absent;
  auditor_export = absent;
}
