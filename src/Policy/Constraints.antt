-- ===== src/Policy/Constraints.antt =====
-- Typed grant constraints (backend/src/policy/constraints.py): the closed vocabulary of limits and
-- the fail-closed check of a grant's limits against a declared attempt.
pub mod Limits
use grantlayer.Prelude.{
  String, Bool, ◌||◌, not, map, Option, none, some, List, [], ◌∷◌, ◌==◌, before, select, sort_by,
  if◌then◌else◌, concat, join,
}
use grantlayer.Prelude.Int.{ℤ, pos, ltb_ℤ, str}
use grantlayer.Platform.{Platform, Json, integer, text, Document, dict, non_dict}

pub record ConstraintDenial : Type 0 where
  pub reason_code : String
  pub reason : String
  pub violation : Option String

-- One entry of `_CONSTRAINT_SPECS`; the request field that carries the attempt is `declared` below.
pub record ConstraintSpec : Type 0 where
  pub violated_code : String
  pub undeclared_reason : String
  pub violated_reason : ℤ → ℤ → String

abbrev pub fee_key : String
fee_key = "max_fee_lovelace"

abbrev pub balance_key : String
balance_key = "max_wallet_balance_lovelace"

unfoldable pub fee_spec : ConstraintSpec
fee_spec = record {
  violated_code = "constraint_violated_max_fee";
  undeclared_reason = "grant is fee-constrained; the request must declare attemptedFeeLovelace";
  violated_reason = λ limit attempted. concat (
      "attempted fee "
      ∷ str attempted
      ∷ " lovelace exceeds the signed limit "
      ∷ str limit
      ∷ " lovelace"
      ∷ []);
}

unfoldable pub balance_spec : ConstraintSpec
balance_spec = record {
  violated_code = "constraint_violated_max_wallet_balance";
  undeclared_reason =
      "grant is balance-constrained; the request must declare walletBalanceLovelace";
  violated_reason = λ limit attempted. concat (
      "declared wallet balance "
      ∷ str attempted
      ∷ " lovelace exceeds the signed limit "
      ∷ str limit
      ∷ " lovelace"
      ∷ []);
}

-- `_CONSTRAINT_SPECS[key]`; KNOWN_CONSTRAINTS are the keys at which it is there.
unfoldable pub constraint_specs : String → Option ConstraintSpec
constraint_specs key =
    if key == fee_key then some fee_spec else if key == balance_key then some balance_spec else none

unfoldable pub is_known : String → Bool
is_known key = key == fee_key || key == balance_key

-- `_valid_limit`: a bool is no number here.
unfoldable pub valid_limit : Json → Option ℤ
valid_limit (integer (pos n)) = some (pos n)
valid_limit v = none

-- `{"max_fee_lovelace": …, "max_wallet_balance_lovelace": …}.get(key)`
unfoldable pub declared : Option ℤ → Option ℤ → String → Option ℤ
declared fee balance key =
    if key == fee_key then fee else if key == balance_key then balance else none

abbrev pub key_before : String × Json → String × Json → Bool
key_before a b = before a.0 b.0

abbrev pub is_unknown : String × Json → Bool
is_unknown e = not (is_known e.0)

module _ (py : Platform) where
  unfoldable pub canonical_violation : String → ℤ → ℤ → String
  canonical_violation constraint_type limit attempted = py.dumps (
      ("type", text constraint_type)
      ∷ ("limit", integer limit)
      ∷ ("attempted", integer attempted)
      ∷ [])

  unfoldable pub violated : ConstraintSpec → String → ℤ → ℤ → Option ConstraintDenial
  violated spec key limit attempted =
      if ltb_ℤ limit attempted
      then some (record {
        reason_code = spec.violated_code;
        reason = spec.violated_reason limit attempted;
        violation = some (canonical_violation key limit attempted);
      })
      else none

  -- One round of the ladder: malformed limit, undeclared attempt, comparison.
  unfoldable pub rung : ConstraintSpec → String → Option ℤ → Option ℤ → Option ConstraintDenial
  rung spec key none attempt = some (record {
    reason_code = "constraint_invalid";
    reason = concat (key ∷ " must be a non-negative integer" ∷ []);
    violation = none;
  })
  rung spec key (some limit) none = some (record {
    reason_code = "constraint_attempt_undeclared";
    reason = spec.undeclared_reason;
    violation = none;
  })
  rung spec key (some limit) (some attempted) = violated spec key limit attempted

  unfoldable pub unknown_denial : List String → ConstraintDenial
  unknown_denial unknown = record {
    reason_code = "constraint_unknown";
    reason = concat ("grant carries unknown constraint type(s): " ∷ join ", " unknown ∷ []);
    violation = none;
  }

  -- The loop over the sorted keys. A key without a spec is not reached: it was refused before.
  unfoldable pub ladder : Option ℤ → Option ℤ → List (String × Json) → Option ConstraintDenial
  ladder fee balance [] = none
  ladder fee balance ((key, value) ∷ rest) = elim (constraint_specs key) [
    | none ↦ some (unknown_denial (key ∷ []))
    | some spec ↦ elim (rung spec key (valid_limit value) (declared fee balance key)) [
      | none ↦ ladder fee balance rest
      | some denial ↦ some denial
    ]
  ]

  unfoldable pub invalid : String → Option ConstraintDenial
  invalid reason =
      some (record { reason_code = "constraint_invalid"; reason = reason; violation = none })

  -- The rest of the check, on the entries of the object.
  unfoldable pub check_entries :
      Option ℤ → Option ℤ → List (String × Json) → Option ConstraintDenial
  check_entries fee balance [] = invalid "grant constraints must be a non-empty object"
  check_entries fee balance (e ∷ es) =
      let entries = sort_by key_before (e ∷ es) in
      elim (select is_unknown entries) [
        | [] ↦ ladder fee balance entries
        | u ∷ us ↦ some (unknown_denial (map (λ x. x.0) (u ∷ us)))
      ]

  unfoldable pub check_document : Option ℤ → Option ℤ → Option Document → Option ConstraintDenial
  check_document fee balance none = invalid "grant constraints are not valid JSON"
  check_document fee balance (some non_dict) =
      invalid "grant constraints must be a non-empty object"
  check_document fee balance (some (dict entries)) = check_entries fee balance entries

  -- `none` is a pass.
  unfoldable pub check_constraints : Option String → Option ℤ → Option ℤ → Option ConstraintDenial
  unfolding violated rung unknown_denial ladder invalid check_entries check_document
      canonical_violation constraint_specs fee_spec balance_spec is_known valid_limit declared
  check_constraints none fee balance = none
  check_constraints (some constraints_text) fee balance =
      check_document fee balance (py.loads constraints_text)
