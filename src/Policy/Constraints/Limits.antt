-- ===== src/Policy/Constraints/Limits.antt =====
-- The check of backend/src/policy/constraints.py against a description of limits that are met.
use grantlayer.Prelude.{
  String, ◌≡◌, refl, ◌↔◌, ◌⊎◌, Option, none, some, List, [], ◌∷◌, ◌≢◌, ℕ, arith, eq_iff, select,
  sort_by, All, All-sort_by,
}
use grantlayer.Prelude.Int.{ℤ, pos, negsuc, ◌≤ℤ◌}
use grantlayer.Platform.{Platform, Json, integer, Document, dict, non_dict}
use grantlayer.Policy.Constraints.{
  ConstraintSpec, unknown_denial, fee_key, balance_key, fee_spec, balance_spec, constraint_specs,
  valid_limit, declared, is_unknown, is_known, key_before, check_constraints, check_entries,
  check_document, ladder, rung, violated, invalid,
}

-- The value is a limit that is not negative, and the attempt was declared and is within it.
abbrev pub IsWithin : Json → Option ℤ → Type 0
IsWithin value attempt =
    (limit : ℕ) × (a : ℤ) × (value ≡ integer (pos limit)) × (attempt ≡ some a) × (a ≤ℤ pos limit)

-- One entry of the object lets the attempt through.
abbrev pub Permits : Option ℤ → Option ℤ → String × Json → Type 0
Permits fee balance e =
    ((e.0 ≡ fee_key) × IsWithin e.1 fee) ⊎ ((e.0 ≡ balance_key) × IsWithin e.1 balance)

rung_iff :
    (py : Platform) (spec : ConstraintSpec) (key : String) (value : Json) (attempt : Option ℤ)
    → (rung py spec key (valid_limit value) attempt ≡ none) ↔ IsWithin value attempt
unfolding rung violated valid_limit
rung_iff py spec key (integer (pos n)) none = (λ h. ground arith, λ h. ground arith)
rung_iff py spec key (integer (pos n)) (some a) =
    (λ h. (n, a, refl, refl, ground arith), λ h. ground (arith, h.4))
rung_iff py spec key (integer (negsuc n)) attempt = (λ h. ground arith, λ h. ground arith)
rung_iff py spec key _ attempt = (λ h. ground arith, λ h. ground arith)

ladder_iff :
    (py : Platform) (fee balance : Option ℤ) (es : List (String × Json))
    → (ladder py fee balance es ≡ none) ↔ All (Permits fee balance) es
unfolding ladder constraint_specs declared
ladder_iff py fee balance [] = (λ h. tt, λ h. refl)
ladder_iff py fee balance ((key, value) ∷ rest) = (
  λ h. ground (
    arith,
    eq_iff key fee_key,
    eq_iff key balance_key,
    rung_iff py fee_spec key value fee,
    rung_iff py balance_spec key value balance,
    ladder_iff py fee balance rest,
  ),
  λ h. ground (
    arith,
    eq_iff key fee_key,
    eq_iff key balance_key,
    eq_iff balance_key fee_key,
    rung_iff py fee_spec key value fee,
    rung_iff py balance_spec key value balance,
    ladder_iff py fee balance rest,
  ),
)

-- Where every entry is a known limit, none is unknown.
known-select :
    (fee balance : Option ℤ) (es : List (String × Json))
    → All (Permits fee balance) es
    → select is_unknown es ≡ []
unfolding select is_known
known-select fee balance [] h = refl
known-select fee balance ((key, value) ∷ rest) h =
    ground (arith, eq_iff key fee_key, eq_iff key balance_key, known-select fee balance rest h.1)

check_entries_iff :
    (py : Platform) (fee balance : Option ℤ) (es : List (String × Json))
    → (check_entries py fee balance es ≡ none) ↔ ((es ≢ []) × All (Permits fee balance) es)
unfolding check_entries invalid unknown_denial
check_entries_iff py fee balance [] = (λ h. ground arith, λ h. absurd (h.0 refl))
check_entries_iff py fee balance (e ∷ es) =
    let sorted = sort_by key_before (e ∷ es) in
    let same = All-sort_by (Permits fee balance) key_before (e ∷ es) in
    (
      λ h. (λ k. cc, same.0 ((ladder_iff py fee balance sorted).0 (ground arith))),
      λ h.
          rw (known-select fee balance sorted (same.1 h.1), check_entries)
            ((ladder_iff py fee balance sorted).1 (same.1 h.1)),
    )

-- A stored text is an object with at least one entry, all of which let the attempt through.
abbrev pub IsMet : Option ℤ → Option ℤ → Option Document → Type 0
IsMet fee balance none = ⊥
IsMet fee balance (some non_dict) = ⊥
IsMet fee balance (some (dict es)) = (es ≢ []) × All (Permits fee balance) es

-- A grant without limits permits every attempt; one with limits has them met.
abbrev pub IsPermitted : Platform → Option String → Option ℤ → Option ℤ → Type 0
IsPermitted py none fee balance = Unit
IsPermitted py (some t) fee balance = IsMet fee balance (py.loads t)

check_document_iff :
    (py : Platform) (fee balance : Option ℤ) (d : Option Document)
    → (check_document py fee balance d ≡ none) ↔ IsMet fee balance d
unfolding check_document invalid
check_document_iff py fee balance none = (λ h. cc, λ h. absurd h)
check_document_iff py fee balance (some non_dict) = (λ h. cc, λ h. absurd h)
check_document_iff py fee balance (some (dict es)) = check_entries_iff py fee balance es

-- The check passes a grant exactly when it carries no limits, or its text is an object with at
-- least one entry, and every entry is a known limit, a number of zero or more, for which an attempt
-- was declared that does not exceed it.
pub check_constraints-IsPermitted :
    (py : Platform) (constraints_text : Option String) (fee balance : Option ℤ)
    → (check_constraints py constraints_text fee balance ≡ none)
      ↔ IsPermitted py constraints_text fee balance
unfolding check_constraints
check_constraints-IsPermitted py none fee balance = (λ h. tt, λ h. refl)
check_constraints-IsPermitted py (some t) fee balance =
    check_document_iff py fee balance (py.loads t)
