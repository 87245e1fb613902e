-- ===== src/Policy/Requirements.antt =====
-- Whether a subject meets a policy pack (backend/src/policy/policy_requirements.py): the limits
-- of amounts, and the evaluation as a whole. The fields that only
-- echo an argument are left out.
pub mod Rules
pub mod Deadlines
pub mod Reports
pub mod Items
pub mod Limits
pub mod Passed
use grantlayer.Prelude.{
  ℕ, String, Bool, true, false, not, ◌&&◌, ◌||◌, Option, none, some, List, [], ◌∷◌, ◌++◌, ◌==◌,
  concat, is_empty, ltb, mem, if◌then◌else◌,
}
use grantlayer.Result.{Result, ok, err, type_error, ◌>>=◌}
use grantlayer.Platform.{Json, null, DateTime, aware, naive}
use grantlayer.Policy.Requirements.Rules.{
  Reader, PolicyPack, Subject, Deadline, DueAt, unset, stamp, not_text, AmountLimits, Ruling,
  ruling, note, parse_iso, amount_ruling, evaluate_required_evidence, evaluate_exclusions,
}
use grantlayer.Policy.Requirements.Deadlines.{
  Dates, no_dates, add_dates, missed, at_due, is_unset, deadline_status, deadline_item,
  scan_deadlines, evaluate_deadlines,
}
use grantlayer.Policy.Requirements.Reports.{
  Input, absent, other, dict, ComplianceGaps, Upstream, is_text, is_absent, dict_where, is_blocked,
  is_severe, upstream_blockers, upstream_warnings, upstream_missing,
}

-- Every item once, at its first place: what comes before is kept in `seen`.
unfoldable pub dedupe_after : List String → List String → List String
dedupe_after seen [] = []
dedupe_after seen (x ∷ xs) =
    let again = dedupe_after seen xs in
    let new = dedupe_after (x ∷ seen) xs in if mem x seen then again else x ∷ new

unfoldable pub dedupe : List String → List String
dedupe xs = dedupe_after [] xs

pub record Evaluation : Type 0 where
  pub evaluation_status : String
  pub readiness : String
  pub required_evidence : List String
  pub missing_evidence : List String
  pub satisfied_evidence : List String
  pub exclusion_violations : List String
  pub deadline_status : String
  pub amount_status : String
  pub required_roles : List String
  pub blockers : List String
  pub warnings : List String
  pub missing_inputs : List String

-- The answer to a pack that is missing or malformed.
unfoldable pub rejected : String → List String → Evaluation
rejected blocker inputs = record {
  evaluation_status = "blocked";
  readiness = "blocked";
  required_evidence = [];
  missing_evidence = [];
  satisfied_evidence = [];
  exclusion_violations = [];
  deadline_status = "missing";
  amount_status = "missing";
  required_roles = [];
  blockers = blocker ∷ [];
  warnings = [];
  missing_inputs = inputs;
}

-- "Determine final status".
unfoldable pub final_status : List String → List String → String × String
final_status [] [] = ("passed", "ready")
final_status [] (w ∷ ws) = ("needs_review", "needs_review")
final_status (b ∷ bs) ws = ("blocked", "blocked")

abbrev pub is_null : Json → Bool
is_null null = true
is_null _ = false

-- Both currencies are stated, and they are not the same.
unfoldable pub differs : String → String → Bool
differs policy subject =
    not (is_empty policy) && (not (is_empty subject) && not (policy == subject))

module _ (r : Reader) where
  unfoldable pub limits_ruling : AmountLimits → Option Subject → Ruling
  unfolding ruling amount_ruling differs
  limits_ruling limits none =
      if is_null limits.max_amount && is_empty limits.currency
      then ruling "none" [] []
      else ruling "missing_subject" [] []
  limits_ruling limits (some s) =
      if is_null limits.max_amount && is_empty limits.currency
      then ruling "none" [] []
      else if is_null s.amount
      then ruling "missing_subject_amount" [] []
      else if differs limits.currency s.currency
      then ruling "currency_mismatch" [] ("currency_mismatch" ∷ [])
      else amount_ruling r (r.float s.amount) (not (is_null limits.max_amount))
          (r.float limits.max_amount)

  unfoldable pub evaluate_amount_limits : PolicyPack → Option Subject → Ruling
  unfolding limits_ruling ruling
  evaluate_amount_limits pack subject = elim pack.amount_limits [
    | none ↦ ruling "missing" [] []
    | some limits ↦ limits_ruling limits subject
  ]

  unfoldable pub all_blockers : PolicyPack → Option Subject → Upstream → Ruling → List String
  unfolding evaluate_required_evidence evaluate_exclusions evaluate_amount_limits upstream_blockers
  all_blockers pack subject u dates =
      (evaluate_required_evidence pack subject).blockers
      ++ (evaluate_exclusions r pack subject).blockers
      ++ dates.blockers
      ++ (evaluate_amount_limits pack subject).blockers
      ++ upstream_blockers u

  unfoldable pub all_warnings : PolicyPack → Option Subject → Upstream → Ruling → List String
  unfolding evaluate_required_evidence evaluate_exclusions evaluate_amount_limits upstream_warnings
  all_warnings pack subject u dates =
      (evaluate_required_evidence pack subject).warnings
      ++ (evaluate_exclusions r pack subject).warnings
      ++ dates.warnings
      ++ (evaluate_amount_limits pack subject).warnings
      ++ upstream_warnings u

  abbrev subject_missing : Option Subject → List String
  subject_missing none = "subject" ∷ []
  subject_missing (some s) = []

  unfoldable pub evaluate_rules : PolicyPack → Option Subject → Upstream → Ruling → Evaluation
  unfolding final_status dedupe all_blockers all_warnings upstream_missing
  evaluate_rules pack subject u dates =
      let evidence = evaluate_required_evidence pack subject in
      let bs = dedupe (all_blockers pack subject u dates) in
      let ws = dedupe (all_warnings pack subject u dates) in
      let (status, readiness) = final_status bs ws in
      record {
        evaluation_status = status;
        readiness = readiness;
        required_evidence = dedupe evidence.required_types;
        missing_evidence = dedupe evidence.missing;
        satisfied_evidence = dedupe evidence.satisfied;
        exclusion_violations = dedupe (evaluate_exclusions r pack subject).codes;
        deadline_status = dates.status;
        amount_status = (evaluate_amount_limits pack subject).status;
        required_roles = pack.required_roles;
        blockers = bs;
        warnings = ws;
        missing_inputs = dedupe (subject_missing subject ++ upstream_missing u);
      }

  -- `now` is the clock that the deadlines are compared with.
  unfoldable pub evaluate_policy_requirements :
      ℕ → Input PolicyPack → Option Subject → Upstream → Result Evaluation
  unfolding rejected evaluate_rules evaluate_deadlines
  evaluate_policy_requirements now absent subject u =
      ok (rejected "policy_pack_missing" ("policy_pack" ∷ []))
  evaluate_policy_requirements now other subject u = ok (rejected "policy_pack_malformed" [])
  evaluate_policy_requirements now (dict pack) subject u =
      if is_empty pack.policy_pack_id
      then ok (rejected "policy_pack_malformed" [])
      else evaluate_deadlines r now pack >>= (λ dates. ok (evaluate_rules pack subject u dates))
