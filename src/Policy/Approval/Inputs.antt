-- ===== src/Policy/Approval/Inputs.antt =====
-- What the evaluator of backend/src/policy/approval_rules.py reads of its arguments: the
-- normalisation of values and the extraction of signals from reports and flags.
use grantlayer.Prelude.{
  ℕ, suc, String, Bool, true, false, ◌||◌, Option, none, some, List, [], ◌∷◌, ◌==◌, is_empty,
  if◌then◌else◌,
}
use grantlayer.Platform.{Json, null, boolean, text}

-- Python's methods on texts, and its floats.
pub record Python : Type 1 where
  -- `s.strip()`, `s.lower()`
  pub strip : String → String
  pub lower : String → String
  -- `fragment in text`
  pub contains : String → String → Bool
  pub Float : Type 0
  -- `float(v)`; `none` is ValueError or TypeError
  pub float : Json → Option Float
  -- `float(v)` raises OverflowError: an integer beyond the floats
  pub overflows : Json → Bool
  -- `x >= n`
  pub at_least : Float → ℕ → Bool

-- The entries that are read of the reports; an absent entry is null.
pub record ComplianceReport : Type 0 where
  pub overall_status : Json
  pub severity : Json

-- `errors` is the length of the list, where there is one.
pub record EvidenceCompleteness : Type 0 where
  pub invalid : Json
  pub errors : Option ℕ
  pub complete : Json

pub record PermissionResult : Type 0 where
  pub allowed : Json

-- A list of flags, each as `str(flag)` gives it, or None; or what is no list, as `str` gives it.
pub data PolicyFlags : Type 0 where
  no_flags : PolicyFlags
  not_list : String → PolicyFlags
  flags : List (Option String) → PolicyFlags

-- A report that is no dict is none.
pub record Proposal : Type 0 where
  pub action : Json
  pub amount : Json
  pub risk_level : Json
  pub compliance_report : Option ComplianceReport
  pub evidence_completeness : Option EvidenceCompleteness
  pub permission_result : Option PermissionResult
  pub policy_flags : PolicyFlags

pub data EvidenceStatus : Type 0 where
  missing invalid incomplete complete : EvidenceStatus

abbrev pub is_invalid : EvidenceStatus → Bool
is_invalid invalid = true
is_invalid _ = false

-- `status == "missing" or status == "incomplete"`
abbrev pub is_lacking : EvidenceStatus → Bool
is_lacking missing = true
is_lacking incomplete = true
is_lacking _ = false

abbrev pub is_null : Json → Bool
is_null null = true
is_null _ = false

-- `value if isinstance(value, str) else None`
unfoldable pub text_of : Json → Option String
text_of (text s) = some s
text_of _ = none

unfoldable pub bool_of : Json → Option Bool
bool_of (boolean b) = some b
bool_of _ = none

unfoldable pub is_text : String → Option String → Bool
is_text s none = false
is_text s (some t) = t == s

unfoldable pub extract_compliance : Option ComplianceReport → Option String × Option String
unfolding text_of
extract_compliance none = (none, none)
extract_compliance (some report) = (text_of report.overall_status, text_of report.severity)

unfoldable pub has_errors : Option ℕ → Bool
has_errors (some (suc n)) = true
has_errors _ = false

unfoldable pub completeness : Option Bool → EvidenceStatus
completeness none = missing
completeness (some true) = complete
completeness (some false) = incomplete

unfoldable pub is_true : Option Bool → Bool
is_true (some true) = true
is_true _ = false

unfoldable pub extract_evidence : Option EvidenceCompleteness → EvidenceStatus
unfolding has_errors completeness bool_of is_true
extract_evidence none = missing
extract_evidence (some e) =
    if is_true (bool_of e.invalid) || has_errors e.errors
    then invalid
    else completeness (bool_of e.complete)

-- `none` is a result that is not present.
unfoldable pub extract_permission : Option PermissionResult → Option Bool
unfolding bool_of
extract_permission none = none
extract_permission (some p) = bool_of p.allowed

pub record PolicySignals : Type 0 where
  pub requires_approval : Bool
  pub requires_four_eyes : Bool
  pub unknown_flags : List String

module _ (py : Python) where
  unfoldable pub normalize_text : String → Option String
  normalize_text s =
      if s == "low" || (s == "medium" || s == "high")
      then some s
      else if is_empty s
      then none
      else some "unknown"

  unfoldable pub normalize_risk_level : Json → Option String
  unfolding normalize_text
  normalize_risk_level null = none
  normalize_risk_level (text s) = normalize_text (py.lower (py.strip s))
  normalize_risk_level _ = some "unknown"

  -- `isinstance(amount, (int, float))` changes nothing: `float` is tried in any case.
  -- The OverflowError that `float` may raise is in the evaluation.
  unfoldable pub normalize_amount : Json → Option py.Float
  normalize_amount null = none
  normalize_amount amount = py.float amount

  unfoldable pub add_flag : Option String → PolicySignals → PolicySignals
  add_flag none signals = signals
  add_flag (some s) signals =
      let flag = py.lower (py.strip s) in
      if flag == "requires_approval"
      then record signals { requires_approval = true }
      else if flag == "requires_four_eyes"
      then record signals { requires_four_eyes = true }
      else if is_empty flag
      then signals
      else record signals { unknown_flags = s ∷ signals.unknown_flags }

  -- From the last flag to the first, so that the unknown ones keep their order.
  unfoldable pub scan_flags : List (Option String) → PolicySignals
  unfolding add_flag
  scan_flags [] = record {
    requires_approval = false;
    requires_four_eyes = false;
    unknown_flags = [];
  }
  scan_flags (f ∷ fs) = add_flag f (scan_flags fs)

  unfoldable pub extract_policy : PolicyFlags → PolicySignals
  unfolding scan_flags
  extract_policy no_flags = scan_flags []
  extract_policy (not_list s) = record (scan_flags []) { unknown_flags = s ∷ [] }
  extract_policy (flags fs) = scan_flags fs
