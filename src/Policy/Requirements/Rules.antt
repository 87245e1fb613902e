-- ===== src/Policy/Requirements/Rules.antt =====
-- The rules of a policy pack (backend/src/policy/policy_requirements.py): the parts of a pack and of
-- a subject that the rules read, and the evaluation of each rule.
use grantlayer.Prelude.{
  String, Bool, true, false, not, Option, none, some, List, [], ◌∷◌, ◌++◌, ◌==◌, concat, is_empty,
  mem, if◌then◌else◌,
}
use grantlayer.Platform.{Json, DateTime}
use grantlayer.Policy.Engine.{utc_offset}

-- Python's `s.lower()`, its floats, and `datetime.fromisoformat`.
pub record Reader : Type 1 where
  pub lower : String → String
  pub Float : Type 0
  -- `float(v)`; `none` is ValueError or TypeError
  pub float : Json → Option Float
  -- `x > y`
  pub exceeds : Float → Float → Bool
  -- `none` is ValueError
  pub fromisoformat : String → Option DateTime

-- Texts are as `str` gives them, with the empty text for None; flags are as `bool` gives them.
pub record EvidenceItem : Type 0 where
  pub kind : String
  pub required : Bool

pub record Exclusion : Type 0 where
  pub code : String
  pub severity : String

-- A date that is not set or empty, a text, or any other value.
pub data DueAt : Type 0 where
  unset : DueAt
  stamp : String → DueAt
  not_text : DueAt

pub record Deadline : Type 0 where
  pub due_at : DueAt
  pub required : Bool
  pub name : String

pub record AmountLimits : Type 0 where
  pub max_amount : Json
  pub currency : String

-- What is no list is none, as is an item that is no dict.
pub record PolicyPack : Type 0 where
  pub policy_pack_id : String
  pub required_evidence : Option (List (Option EvidenceItem))
  pub exclusions : Option (List (Option Exclusion))
  pub deadlines : Option (List (Option Deadline))
  pub amount_limits : Option AmountLimits
  pub required_roles : List String

-- The evidence and the codes are the lists of texts that the rules make of them.
pub record Subject : Type 0 where
  pub evidence_types : List String
  pub exclusion_codes : List String
  pub amount : Json
  pub currency : String

unfoldable pub types_of : Option Subject → List String
types_of none = []
types_of (some s) = s.evidence_types

unfoldable pub codes_of : Option Subject → List String
codes_of none = []
codes_of (some s) = s.exclusion_codes

-- A text, where it is to be appended.
unfoldable pub note : Bool → String → List String
note true s = s ∷ []
note false s = []

pub record Evidence : Type 0 where
  pub required_types : List String
  pub missing : List String
  pub satisfied : List String
  pub blockers : List String
  pub warnings : List String

unfoldable pub no_evidence : Evidence
no_evidence = record {
  required_types = [];
  missing = [];
  satisfied = [];
  blockers = [];
  warnings = [];
}

unfoldable pub add_evidence : Evidence → Evidence → Evidence
add_evidence a b = record {
  required_types = a.required_types ++ b.required_types;
  missing = a.missing ++ b.missing;
  satisfied = a.satisfied ++ b.satisfied;
  blockers = a.blockers ++ b.blockers;
  warnings = a.warnings ++ b.warnings;
}

unfoldable pub evidence_item : List String → Option EvidenceItem → Evidence
unfolding no_evidence note
evidence_item types none = no_evidence
evidence_item types (some item) =
    if is_empty item.kind
    then no_evidence
    else if mem item.kind types
    then record {
      required_types = note item.required item.kind;
      missing = [];
      satisfied = item.kind ∷ [];
      blockers = [];
      warnings = [];
    }
    else record {
      required_types = note item.required item.kind;
      missing = note item.required item.kind;
      satisfied = [];
      blockers = note item.required (concat ("missing_required_evidence:" ∷ item.kind ∷ []));
      warnings = note (not item.required) (concat ("missing_optional_evidence:" ∷ item.kind ∷ []));
    }

unfoldable pub scan_evidence : List String → List (Option EvidenceItem) → Evidence
unfolding add_evidence evidence_item no_evidence
scan_evidence types [] = no_evidence
scan_evidence types (i ∷ items) = add_evidence (evidence_item types i) (scan_evidence types items)

unfoldable pub evaluate_required_evidence : PolicyPack → Option Subject → Evidence
unfolding scan_evidence types_of no_evidence
evaluate_required_evidence pack subject = elim pack.required_evidence [
  | none ↦ no_evidence
  | some items ↦ scan_evidence (types_of subject) items
]

-- A status, or the violations, with what the rule says for and against the subject.
pub record Violations : Type 0 where
  pub codes : List String
  pub blockers : List String
  pub warnings : List String

pub record Ruling : Type 0 where
  pub status : String
  pub blockers : List String
  pub warnings : List String

unfoldable pub ruling : String → List String → List String → Ruling
ruling s bs ws = record { status = s; blockers = bs; warnings = ws }

unfoldable pub no_violations : Violations
no_violations = record { codes = []; blockers = []; warnings = [] }

module _ (r : Reader) where
  unfoldable pub exclusion_item : List String → Option Exclusion → Violations
  unfolding no_violations note
  exclusion_item codes none = no_violations
  exclusion_item codes (some item) =
      let blocking = r.lower item.severity == "blocking" in
      let message = concat ("exclusion:" ∷ item.code ∷ []) in
      if is_empty item.code
      then no_violations
      else if mem item.code codes
      then record {
        codes = item.code ∷ [];
        blockers = note blocking message;
        warnings = note (not blocking) message;
      }
      else no_violations

  unfoldable pub scan_exclusions : List String → List (Option Exclusion) → Violations
  unfolding exclusion_item no_violations
  scan_exclusions codes [] = no_violations
  scan_exclusions codes (i ∷ items) =
      let a = exclusion_item codes i in
      let b = scan_exclusions codes items in
      record {
        codes = a.codes ++ b.codes;
        blockers = a.blockers ++ b.blockers;
        warnings = a.warnings ++ b.warnings;
      }

  unfoldable pub evaluate_exclusions : PolicyPack → Option Subject → Violations
  unfolding scan_exclusions codes_of no_violations
  evaluate_exclusions pack subject = elim pack.exclusions [
    | none ↦ no_violations
    | some items ↦ scan_exclusions (codes_of subject) items
  ]

  unfoldable pub parse_iso : DueAt → Option DateTime
  parse_iso unset = none
  parse_iso (stamp s) = r.fromisoformat (utc_offset s)
  parse_iso not_text = none

  -- The comparison of amounts: `none` is an error of one of the conversions.
  unfoldable pub amount_ruling : Option r.Float → Bool → Option r.Float → Ruling
  unfolding ruling
  amount_ruling none limited m = ruling "malformed" [] ("amount_malformed" ∷ [])
  amount_ruling (some x) false m = ruling "within_limit" [] []
  amount_ruling (some x) true none = ruling "malformed" [] ("amount_malformed" ∷ [])
  amount_ruling (some x) true (some y) =
      if r.exceeds x y
      then ruling "above_limit" ("amount_above_max" ∷ []) []
      else ruling "within_limit" [] []
