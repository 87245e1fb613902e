-- ===== src/Examples/Agents.antt =====
-- Runs of the permissions of agents.
use grantlayer.Prelude.{◌≡◌, refl, ◌↔◌, true, [], ◌∷◌, Any, any_where, sort_by}
use grantlayer.Policy.Agents.{
  ScopeText, is_known_scope, is_valid_format, two_parts, split_colon, matches_re, all_scope_chars,
  is_scope_char, within, plus_to_end, to_end, has_parts, action_is, scope_matches, covers,
  evaluate_agent_permission,
}
use grantlayer.Policy.Agents.Profiles.{
  resolve_agent_permission_assignment, get_agent_permission_profile,
  expand_agent_permission_profiles,
}
use grantlayer.Policy.Agents.Known.{IsKnownScope}
use grantlayer.Policy.Agents.Allowed.{Allows, evaluate_agent_permission-allowed}
use grantlayer.Policy.Agents.Granted.{IsKnown, resolve_agent_permission_assignment-IsKnown}

-- Texts are in normal form.
abbrev scopes : ScopeText
scopes = record { normalize = λ s. s; replace_colon = λ s. s }

evaluate_agent_permission-allowed_example :
    ((evaluate_agent_permission scopes "evidence:read" ("grant" ∷ "*:read" ∷ [])).allowed ≡ true)
    ↔ (IsKnownScope "evidence:read" × Any (Allows scopes "evidence:read") ("grant" ∷ "*:read" ∷ []))
evaluate_agent_permission-allowed_example =
    evaluate_agent_permission-allowed scopes "evidence:read" ("grant" ∷ "*:read" ∷ []) (λ s. refl)

verifies :
    (resolve_agent_permission_assignment scopes
      (λ s. s)
      "agent-1"
      "evidence:verify"
      []
      ("evidence_verifier" ∷ [])).0.allowed
    ≡ true
unfolding resolve_agent_permission_assignment evaluate_agent_permission is_valid_format has_parts
    two_parts is_known_scope action_is any_where split_colon matches_re all_scope_chars
    is_scope_char within plus_to_end to_end sort_by expand_agent_permission_profiles
    get_agent_permission_profile scope_matches covers
verifies = refl

resolve_agent_permission_assignment-IsKnown_example : IsKnown "evidence:verify"
resolve_agent_permission_assignment-IsKnown_example =
    resolve_agent_permission_assignment-IsKnown scopes (λ s. s) "agent-1" "evidence:verify"
      ("evidence_verifier" ∷ []) (λ s. refl) (λ s h. refl) verifies
