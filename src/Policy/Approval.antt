-- ===== src/Policy/Approval.antt =====
-- Which actions need approval (backend/src/policy/approval_rules.py), on the parts of its arguments
-- that the evaluator reads; what it echoes back for display is left out.
pub mod Inputs
pub mod Reports
pub mod Values
pub mod Decision
pub mod Clear
use grantlayer.Prelude.{
  ℕ, String, Bool, true, false, not, ◌&&◌, ◌||◌, Option, none, some, List, [], ◌∷◌, ◌++◌, map, ◌==◌,
  concat, is_empty, is_some, if◌then◌else◌,
}
use grantlayer.Result.{Result, ok, err, overflow_error}
use grantlayer.Platform.{Json, null, text}
use grantlayer.Policy.Approval.Inputs.{
  Python, Proposal, is_invalid, is_lacking, is_null, is_text, extract_compliance, extract_evidence,
  extract_permission, extract_policy, normalize_risk_level, normalize_amount,
}

-- The outcome of an evaluation: `approvalRequired` and the fields after it.
pub record Requirement : Type 0 where
  pub approval_required : Bool
  pub required_approvals : ℕ
  pub required_roles : List String
  pub decision : String
  pub reason : String
  pub blockers : List String
  pub warnings : List String

-- A text, where it is to be appended.
unfoldable pub note : Bool → String → List String
note true s = s ∷ []
note false s = []

-- The tests that the evaluator makes, by the numbers of its comments.
pub record Signals : Type 0 where
  pub action_missing : Bool
  pub permission_denied : Bool
  pub compliance_blocked : Bool
  pub evidence_invalid : Bool
  pub amount_malformed : Bool
  pub risk_unknown : Bool
  pub unknown_flags : List String
  pub risk_high : Bool
  pub risk_medium : Bool
  -- at least 100 000, and at least 10 000 but not that
  pub amount_high : Bool
  pub amount_middle : Bool
  pub severity_critical : Bool
  pub requires_four_eyes : Bool
  pub requires_approval : Bool
  pub evidence_lacking : Bool
  pub permission_missing : Bool

unfoldable pub is_blocked : Signals → Bool
is_blocked s =
    s.action_missing || (s.permission_denied || (s.compliance_blocked || s.evidence_invalid))

unfoldable pub needs_four_eyes : Signals → Bool
unfolding is_blocked
needs_four_eyes s =
    s.risk_high
    || (s.amount_high || ((not (is_blocked s) && s.severity_critical) || s.requires_four_eyes))

unfoldable pub needs_one_approval : Signals → Bool
unfolding is_blocked
needs_one_approval s =
    s.amount_malformed
    || (s.risk_unknown
        || (s.risk_medium
            || (s.amount_middle
                || (s.requires_approval
                    || (s.evidence_lacking || (not (is_blocked s) && s.permission_missing))))))

unfoldable pub blockers_of : Signals → List String
unfolding note
blockers_of s =
    note s.action_missing "action_missing_or_empty"
    ++ note s.permission_denied "permission_denied"
    ++ note s.compliance_blocked "compliance_blocked"
    ++ note s.evidence_invalid "evidence_invalid"

unfoldable pub warnings_of : Signals → List String
unfolding note is_blocked
warnings_of s =
    note s.amount_malformed "amount_malformed"
    ++ note s.risk_unknown "unknown_risk_level"
    ++ map (λ f. concat ("unknown_policy_flag:" ∷ f ∷ [])) s.unknown_flags
    ++ note (not (is_blocked s) && s.permission_missing) "missing_permission_result"

abbrev pub one_approval_roles : List String
one_approval_roles = "grant_admin" ∷ []

abbrev pub four_eyes_roles : List String
four_eyes_roles = "grant_admin" ∷ "owner" ∷ []

unfoldable pub outcome : Signals → Bool → ℕ → List String → String → String → Requirement
unfolding blockers_of warnings_of
outcome s required approvals roles decision reason = record {
  approval_required = required;
  required_approvals = approvals;
  required_roles = roles;
  decision = decision;
  reason = reason;
  blockers = blockers_of s;
  warnings = warnings_of s;
}

-- "Compute final decision".
unfoldable pub decide : Signals → Requirement
unfolding outcome
decide s =
    if is_blocked s
    then outcome s false 0 [] "blocked" "blocked_by_policy"
    else if needs_four_eyes s
    then outcome s true 2 four_eyes_roles "four_eyes_required" "four_eyes_approval_required"
    else if needs_one_approval s
    then outcome s true 1 one_approval_roles "approval_required" "approval_required"
    else outcome s false 0 [] "no_approval_required" "no_approval_required"

abbrev pub is_false : Option Bool → Bool
is_false (some false) = true
is_false _ = false

module _ (py : Python) where
  unfoldable pub is_missing : Json → Bool
  is_missing null = true
  is_missing (text s) = is_empty (py.strip s)
  is_missing _ = false

  unfoldable pub lower_is : String → Option String → Bool
  lower_is s none = false
  lower_is s (some t) = py.lower t == s

  unfoldable pub reaches : ℕ → Option py.Float → Bool
  reaches n none = false
  reaches n (some x) = py.at_least x n

  unfoldable pub read_signals : Proposal → Signals
  unfolding is_missing lower_is reaches
  read_signals p =
      let compliance = extract_compliance p.compliance_report in
      let evidence = extract_evidence p.evidence_completeness in
      let permission = extract_permission p.permission_result in
      let policy = extract_policy py p.policy_flags in
      let risk = normalize_risk_level py p.risk_level in
      let amount = normalize_amount py p.amount in
      record {
        action_missing = is_missing p.action;
        permission_denied = is_false permission;
        compliance_blocked = lower_is "blocked" compliance.0;
        evidence_invalid = is_invalid evidence;
        amount_malformed = not (is_null p.amount) && not (is_some amount);
        risk_unknown = is_text "unknown" risk;
        unknown_flags = policy.unknown_flags;
        risk_high = is_text "high" risk;
        risk_medium = is_text "medium" risk;
        amount_high = reaches 100000 amount;
        amount_middle = not (reaches 100000 amount) && reaches 10000 amount;
        severity_critical = lower_is "critical" compliance.1;
        requires_four_eyes = policy.requires_four_eyes;
        requires_approval = policy.requires_approval;
        evidence_lacking = is_lacking evidence;
        permission_missing = not (is_some permission);
      }

  -- The error of an amount that is too large is not caught.
  unfoldable pub evaluate_approval_requirements : Proposal → Result Requirement
  unfolding decide read_signals
  evaluate_approval_requirements p =
      if not (is_null p.amount) && py.overflows p.amount
      then err overflow_error
      else ok (decide (read_signals p))
