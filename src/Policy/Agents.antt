-- ===== src/Policy/Agents.antt =====
-- What an agent may do by its scopes (backend/src/policy/agent_permissions.py). Scopes are texts;
-- what a result echoes of its arguments is left out.
pub mod Known
pub mod Profiles
pub mod Allowed
pub mod Granted
use Prim.Native.Char.{Char, code}
use Prim.Native.String
use grantlayer.Prelude.{
  ℕ, leb, String, Bool, true, false, not, ◌&&◌, ◌||◌, Option, none, some, List, [], ◌∷◌, ◌++◌, ◌==◌,
  concat, is_empty, any_where, mem, if◌then◌else◌,
}

-- Python's methods on texts.
pub record ScopeText : Type 0 where
  -- `s.strip().lower()`
  pub normalize : String → String
  -- `s.replace(":", "_")`
  pub replace_colon : String → String

-- A text of one more character at the front of the first.
abbrev pub put : Char → List String → List String
put c [] = []
put c (s ∷ rest) = String.◌∷◌ c s ∷ rest

abbrev pub code_is : ℕ → Char → Bool
code_is n c = leb n (code c) && leb (code c) n

-- `s.split(":")`
unfoldable pub split_colon : String → List String
split_colon String.[] = "" ∷ []
split_colon (String.◌∷◌ c s) =
    let rest = split_colon s in if code_is 58 c then "" ∷ rest else put c rest

unfoldable pub within : ℕ → ℕ → Char → Bool
within low high c = leb low (code c) && leb (code c) high

-- `[a-z0-9_*-]`
unfoldable pub is_scope_char : Char → Bool
unfolding within
is_scope_char c =
    within 97 122 c || (within 48 57 c || (code_is 95 c || (code_is 42 c || code_is 45 c)))

unfoldable pub all_scope_chars : String → Bool
unfolding is_scope_char
all_scope_chars String.[] = true
all_scope_chars (String.◌∷◌ c s) = let rest = all_scope_chars s in is_scope_char c && rest

-- The same, up to a `$`, which a line break at the very end may follow.
unfoldable pub to_end : String → Bool
unfolding is_scope_char
to_end String.[] = true
to_end (String.◌∷◌ c String.[]) = is_scope_char c || code_is 10 c
to_end (String.◌∷◌ c (String.◌∷◌ d s)) =
    let rest = to_end (String.◌∷◌ d s) in is_scope_char c && rest

unfoldable pub plus_to_end : String → Bool
unfolding is_scope_char to_end
plus_to_end String.[] = false
plus_to_end (String.◌∷◌ c s) = is_scope_char c && to_end s

abbrev pub known_actions : List String
known_actions = "read" ∷ "verify" ∷ "write" ∷ "admin" ∷ "create" ∷ "delete" ∷ "*" ∷ []

abbrev pub known_scopes : List String
known_scopes =
    "evidence:read" ∷ "evidence:verify" ∷ "provenance:read" ∷ "auditor_report:read"
    ∷ "compliance_gap:read" ∷ "grant_execution:read" ∷ "grant_request:read" ∷ "grant:read" ∷ []

-- The two parts of a text with one colon.
unfoldable pub two_parts : List String → Option (String × String)
two_parts (domain ∷ action ∷ []) = some (domain, action)
two_parts _ = none

unfoldable pub has_parts : Option (String × String) → Bool
has_parts none = false
has_parts (some parts) = not (is_empty parts.0) && not (is_empty parts.1)

unfoldable pub action_is : (String → Bool) → Option (String × String) → Bool
action_is p none = false
action_is p (some parts) = p parts.1

-- The outcome of an evaluation.
pub record Outcome : Type 0 where
  pub allowed : Bool
  pub matched_scope : Option String
  pub reason : String
  pub warnings : List String

unfoldable pub denied : String → List String → Outcome
denied reason warnings = record {
  allowed = false;
  matched_scope = none;
  reason = reason;
  warnings = warnings;
}

-- `_SCOPE_RE.match`: no part can hold a colon.
unfoldable pub matches_re : Option (String × String) → Bool
unfolding all_scope_chars plus_to_end
matches_re none = false
matches_re (some parts) = not (is_empty parts.0) && (all_scope_chars parts.0 && plus_to_end parts.1)

unfoldable pub is_valid_format : String → Bool
unfolding matches_re has_parts two_parts split_colon
is_valid_format scope =
    not (is_empty scope)
    && (has_parts (two_parts (split_colon scope)) && matches_re (two_parts (split_colon scope)))

unfoldable pub is_known_scope : String → Bool
unfolding is_valid_format action_is
is_known_scope scope =
    is_valid_format scope && action_is (λ a. mem a known_actions) (two_parts (split_colon scope))

-- The tests on normalised and well-formed scopes.
unfoldable pub covers : String → String → Bool
covers assigned requested =
    if assigned == requested
    then true
    else if assigned == "admin:*" && is_known_scope requested
    then true
    else if assigned == "*:read"
    then action_is (λ a. a == "read") (two_parts (split_colon requested))
    else false

module _ (py : ScopeText) where
  unfoldable pub scope_matches : String → String → Bool
  scope_matches assigned_scope requested_scope =
      let assigned = py.normalize assigned_scope in
      let requested = py.normalize requested_scope in
      if not (is_valid_format assigned) || not (is_valid_format requested)
      then false
      else covers assigned requested

  unfoldable pub ignored : String → Outcome → Outcome
  ignored raw out = record out {
    warnings =
        concat ("Assigned scope '" ∷ raw ∷ "' is malformed and was ignored." ∷ []) ∷ out.warnings;
  }

  -- The loop over the assigned scopes, for a normalised request.
  unfoldable pub scan : String → List String → Outcome
  unfolding ignored denied
  scan requested [] = denied "scope_not_matched" []
  scan requested (raw ∷ assigned_scopes) =
      let rest = scan requested assigned_scopes in
      let assigned = py.normalize raw in
      if is_empty assigned
      then rest
      else if not (is_valid_format assigned)
      then ignored raw rest
      else if scope_matches assigned requested
      then record {
        allowed = true;
        matched_scope = some raw;
        reason = "scope_matched";
        warnings = [];
      }
      else rest

  unfoldable pub evaluate_agent_permission : String → List String → Outcome
  unfolding scan denied
  evaluate_agent_permission requested_scope assigned_scopes =
      let requested = py.normalize requested_scope in
      if is_empty requested
      then denied "requested_scope_missing" ("Requested scope is missing or empty." ∷ [])
      else if not (is_valid_format requested)
      then denied "requested_scope_malformed"
          (concat ("Requested scope '" ∷ requested_scope ∷ "' is malformed." ∷ []) ∷ [])
      else if not (is_known_scope requested)
      then denied "requested_scope_unknown"
          (concat ("Requested scope '" ∷ requested_scope ∷ "' is not a known scope." ∷ []) ∷ [])
      else scan requested assigned_scopes
