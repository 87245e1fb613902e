-- ===== src/Policy/Agents/Profiles.antt =====
-- Profiles of scopes, and what an agent may do by its scopes and profiles together
-- (backend/src/policy/agent_permission_profiles.py and agent_permission_assignments.py).
use grantlayer.Prelude.{
  mem, String, not, ◌||◌, Option, none, some, List, [], ◌∷◌, ◌++◌, ◌==◌, concat, is_empty, before,
  sort_by, if◌then◌else◌,
}
use grantlayer.Policy.Agents.{ScopeText, Outcome, denied, is_known_scope, evaluate_agent_permission}

-- `_BUILTIN_PROFILES`, by name: the scopes.
unfoldable pub builtin_profiles : String → Option (List String)
builtin_profiles name =
    if name == "auditor_readonly"
    then some (
        "evidence:read" ∷ "provenance:read" ∷ "auditor_report:read" ∷ "compliance_gap:read"
        ∷ "grant_execution:read" ∷ [])
    else if name == "evidence_verifier"
    then some
        ("evidence:read" ∷ "evidence:verify" ∷ "provenance:read" ∷ "grant_execution:read" ∷ [])
    else if name == "grant_operator_readonly"
    then some ("grant:read" ∷ "grant_request:read" ∷ "grant_execution:read" ∷ "evidence:read" ∷ [])
    else if name == "compliance_reviewer"
    then some (
        "evidence:read" ∷ "provenance:read" ∷ "auditor_report:read" ∷ "compliance_gap:read"
        ∷ "grant:read" ∷ "grant_request:read" ∷ "grant_execution:read" ∷ [])
    else none

-- A set as the list of its members in the order of their coming.
unfoldable pub add_to : String → List String → List String
add_to s seen = if mem s seen then seen else seen ++ s ∷ []

unfoldable pub add_all : List String → List String → List String
unfolding add_to
add_all [] seen = seen
add_all (s ∷ rest) seen = add_all rest (add_to s seen)

-- `sorted(set(texts))`
unfoldable pub sorted_set : List String → List String
unfolding add_all
sorted_set texts = sort_by before (add_all texts [])

-- An expansion of profiles.
pub record Expansion : Type 0 where
  pub scopes : List String
  pub warnings : List String
  pub resolved_profiles : List String

module _ (py : ScopeText) where
  -- `_validate_profile_scopes`: the scopes that are kept, and the warnings.
  unfoldable pub validate_from : List String → List String → List String × List String
  validate_from seen [] = ([], [])
  validate_from seen (scope ∷ scopes) =
      let normalized = py.normalize scope in
      let skipped = validate_from seen scopes in
      let rest = validate_from (normalized ∷ seen) scopes in
      if is_empty normalized
      then (skipped.0, "Empty or invalid scope encountered." ∷ skipped.1)
      else if mem normalized seen
      then skipped
      else if not (is_known_scope normalized)
      then (rest.0, concat ("Scope '" ∷ scope ∷ "' is not a known scope." ∷ []) ∷ rest.1)
      else (normalized ∷ rest.0, rest.1)

  -- The scopes of a profile, by its normalised name.
  unfoldable pub profile_scopes : Option (List String) → Option (List String)
  unfolding validate_from
  profile_scopes none = none
  profile_scopes (some scopes) = some (validate_from [] scopes).0

  unfoldable pub get_agent_permission_profile : String → Option (List String)
  unfolding profile_scopes builtin_profiles
  get_agent_permission_profile profile_name =
      profile_scopes (builtin_profiles (py.normalize profile_name))

  unfoldable pub add_profile : String → String → Option (List String) → Expansion → Expansion
  add_profile raw name none e = record e {
    warnings = concat ("Unknown profile '" ∷ raw ∷ "' ignored." ∷ []) ∷ e.warnings;
  }
  add_profile raw name (some scopes) e = record e {
    scopes = scopes ++ e.scopes;
    resolved_profiles = name ∷ e.resolved_profiles;
  }

  -- The loop over the names; the scopes of all, before they are made a set.
  unfoldable pub expand_from : List String → Expansion
  unfolding add_profile
  expand_from [] = record { scopes = []; warnings = []; resolved_profiles = [] }
  expand_from (raw ∷ names) =
      let rest = expand_from names in
      let name = py.replace_colon (py.normalize raw) in
      if is_empty name
      then record rest { warnings = "Empty profile name encountered and ignored." ∷ rest.warnings }
      else add_profile raw name (get_agent_permission_profile name) rest

  unfoldable pub expand_agent_permission_profiles : List String → Expansion
  unfolding expand_from sorted_set
  expand_agent_permission_profiles names =
      let e = expand_from names in record e { scopes = sorted_set e.scopes }

-- A combination of direct scopes with those of profiles.
pub record Combination : Type 0 where
  pub resolved_scopes : List String
  pub warnings : List String

-- The warnings that empty texts of a list get.
unfoldable pub empty_warnings : String → List String → List String
empty_warnings warning [] = []
empty_warnings warning (s ∷ rest) =
    let more = empty_warnings warning rest in if is_empty s then warning ∷ more else more

module _ (py : ScopeText) where
  -- `None` is the empty list.
  unfoldable pub combine_effective_scopes : List String → List String → Combination
  unfolding empty_warnings sorted_set
  combine_effective_scopes assigned_scopes assigned_profiles =
      let e = expand_agent_permission_profiles py assigned_profiles in
      record {
        resolved_scopes = sorted_set (assigned_scopes ++ e.scopes);
        warnings =
            empty_warnings "Skipping malformed scope: ''" assigned_scopes
            ++ empty_warnings "Skipping malformed profile name: ''" assigned_profiles
            ++ e.warnings;
      }

  -- The outcome with the resolved scopes. `strip` is `s.strip()`.
  unfoldable pub resolve_agent_permission_assignment :
      (String → String) → String → String → List String → List String → Outcome × List String
  unfolding combine_effective_scopes denied
  resolve_agent_permission_assignment strip agent_id requested_scope assigned_scopes
        assigned_profiles =
      let combination = combine_effective_scopes assigned_scopes assigned_profiles in
      let evaluation = evaluate_agent_permission py requested_scope combination.resolved_scopes in
      if is_empty agent_id || is_empty (strip agent_id)
      then (denied "agent_id_missing" ("agent_id is missing or empty" ∷ []), [])
      else (record evaluation { warnings = combination.warnings }, combination.resolved_scopes)
