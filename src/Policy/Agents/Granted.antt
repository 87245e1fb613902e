-- ===== src/Policy/Agents/Granted.antt =====
-- What the built-in profiles can grant (backend/src/policy/agent_permission_profiles.py and
-- agent_permission_assignments.py).
use grantlayer.Prelude.{
  mem, String, ◌≡◌, refl, sym, ap, ◌∙◌, inl, inr, true, not, ◌||◌, Option, none, some, List, [],
  ◌∷◌, arith, ◌==◌, is_empty, any_where, before, All, All-append, All-sort_by, Any, Any-of_All,
  if-either,
}
use grantlayer.Policy.Agents.{
  ScopeText, Outcome, known_scopes, denied, is_known_scope, evaluate_agent_permission,
}
use grantlayer.Policy.Agents.Profiles.{
  builtin_profiles, add_to, add_all, sorted_set, Expansion, validate_from, profile_scopes,
  get_agent_permission_profile, add_profile, expand_from, expand_agent_permission_profiles,
  combine_effective_scopes, resolve_agent_permission_assignment,
}
use grantlayer.Policy.Agents.Allowed.{IsIdempotent, Authorises, evaluate_agent_permission-covered}

-- The scopes of the vocabulary, without a wildcard.
abbrev pub IsKnown : String → Type 0
IsKnown s = mem s known_scopes ≡ true

-- The known scopes are in normal form.
abbrev pub KeepsKnown : ScopeText → Type 0
KeepsKnown py = (s : String) → IsKnown s → py.normalize s ≡ s

add_all-All :
    (P : String → Type 0) (xs seen : List String) → All P xs → All P seen → All P (add_all xs seen)
unfolding add_all add_to
add_all-All P [] seen h k = k
add_all-All P (x ∷ xs) seen h k =
    add_all-All P xs (add_to x seen) h.1
      (if-either (All P) (mem x seen) (λ _. k) (λ _. (All-append P seen (x ∷ [])).1 (k, (h.0, tt))))

sorted_set-All : (P : String → Type 0) (xs : List String) → All P xs → All P (sorted_set xs)
unfolding sorted_set
sorted_set-All P xs h = (All-sort_by P before (add_all xs [])).1 (add_all-All P xs [] h tt)

-- Every scope of a profile, where there is one, is known.
abbrev AllKnown : Option (List String) → Type 0
AllKnown none = Unit
AllKnown (some scopes) = All IsKnown scopes

builtin-IsKnown : (name : String) → AllKnown (builtin_profiles name)
unfolding builtin_profiles any_where
builtin-IsKnown name =
    if-either AllKnown (name == "auditor_readonly")
      (λ _. (refl, (refl, (refl, (refl, (refl, tt))))))
      λ _.
        if-either AllKnown (name == "evidence_verifier") (λ _. (refl, (refl, (refl, (refl, tt)))))
          λ _.
            if-either AllKnown (name == "grant_operator_readonly")
              (λ _. (refl, (refl, (refl, (refl, tt)))))
              λ _.
                if-either AllKnown (name == "compliance_reviewer")
                  (λ _. (refl, (refl, (refl, (refl, (refl, (refl, (refl, tt)))))))) λ _. tt

module _ (py : ScopeText) (keeps : KeepsKnown py) where
  validate-IsKnown :
      (seen scopes : List String)
      → All IsKnown scopes
      → All IsKnown (validate_from py seen scopes).0
  unfolding validate_from
  validate-IsKnown seen [] h = tt
  validate-IsKnown seen (s ∷ scopes) h =
      let P = λ (r : List String × List String). All IsKnown r.0 in
      let n = py.normalize s in
      let known : IsKnown n = ap (λ t. mem t known_scopes) (keeps s h.0) ∙ h.0 in
      if-either P (is_empty n) (λ _. validate-IsKnown seen scopes h.1)
        λ _.
          if-either P (mem n seen) (λ _. validate-IsKnown seen scopes h.1)
            λ _.
              if-either P (not (is_known_scope n)) (λ _. validate-IsKnown (n ∷ seen) scopes h.1)
                λ _. (known, validate-IsKnown (n ∷ seen) scopes h.1)

  profile-IsKnown : (o : Option (List String)) → AllKnown o → AllKnown (profile_scopes py o)
  unfolding profile_scopes
  profile-IsKnown none h = tt
  profile-IsKnown (some scopes) h = validate-IsKnown [] scopes h

  get-IsKnown : (name : String) → AllKnown (get_agent_permission_profile py name)
  unfolding get_agent_permission_profile
  get-IsKnown name =
      profile-IsKnown (builtin_profiles (py.normalize name)) (builtin-IsKnown (py.normalize name))

  add_profile-IsKnown :
      (raw name : String) (o : Option (List String)) (e : Expansion)
      → AllKnown o
      → All IsKnown e.scopes
      → All IsKnown (add_profile py raw name o e).scopes
  unfolding add_profile
  add_profile-IsKnown raw name none e h k = k
  add_profile-IsKnown raw name (some scopes) e h k = (All-append IsKnown scopes e.scopes).1 (h, k)

  expand-IsKnown : (names : List String) → All IsKnown (expand_from py names).scopes
  unfolding expand_from
  expand-IsKnown [] = tt
  expand-IsKnown (raw ∷ names) =
      let name = py.replace_colon (py.normalize raw) in
      let rest = expand-IsKnown names in
      if-either (λ (e : Expansion). All IsKnown e.scopes) (is_empty name) (λ _. rest)
        (λ _.
          add_profile-IsKnown raw name (get_agent_permission_profile py name) (expand_from py names)
            (get-IsKnown name) rest)

  -- What profiles alone resolve to.
  resolved-IsKnown :
      (profiles : List String)
      → All IsKnown (combine_effective_scopes py [] profiles).resolved_scopes
  unfolding combine_effective_scopes expand_agent_permission_profiles
  resolved-IsKnown profiles =
      sorted_set-All IsKnown (sorted_set (expand_from py profiles).scopes)
        (sorted_set-All IsKnown (expand_from py profiles).scopes (expand-IsKnown profiles))

  -- A known scope authorises itself alone.
  authorised-IsKnown :
      (requested raw : String) → IsKnown raw → Authorises py requested raw → IsKnown requested
  unfolding any_where
  authorised-IsKnown requested raw known a = elim a.allows [
    | inl same ↦ rw (sym same) (rw (keeps raw known) known)
    | inr (inl all) ↦
        absurd (let e = sym (keeps raw known) ∙ all.0 in cc (known, ap (λ s. mem s known_scopes) e))
    | inr (inr read) ↦
        absurd
          (let e = sym (keeps raw known) ∙ read.0 in cc (known, ap (λ s. mem s known_scopes) e))
  ]

Any-const : (P : Type 0) (xs : List String) → Any (λ _. P) xs → P
Any-const P [] h = elim h [ ]
Any-const P (x ∷ xs) (inl p) = p
Any-const P (x ∷ xs) (inr h) = Any-const P xs h

resolved-allowed :
    (py : ScopeText) (strip : String → String) (agent_id requested : String)
    (scopes profiles : List String)
    → (resolve_agent_permission_assignment py strip agent_id requested scopes profiles).0.allowed
      ≡ true
    → (evaluate_agent_permission py requested
        (combine_effective_scopes py scopes profiles).resolved_scopes).allowed
      ≡ true
unfolding resolve_agent_permission_assignment denied
resolved-allowed py strip agent_id requested scopes profiles =
    let evaluation =
      evaluate_agent_permission py requested
        (combine_effective_scopes py scopes profiles).resolved_scopes in
    if-either (λ (o : Outcome × List String). o.0.allowed ≡ true → evaluation.allowed ≡ true)
      (is_empty agent_id || is_empty (strip agent_id)) (λ _ e. absurd (ground arith)) (λ _ e. e)

-- An agent with profiles and no scope of its own is allowed nothing but the known scopes, which
-- read and verify and have no wildcard; where normalising a text again changes nothing and keeps
-- the known scopes.
pub resolve_agent_permission_assignment-IsKnown :
    (py : ScopeText) (strip : String → String) (agent_id requested : String)
    (profiles : List String)
    → IsIdempotent py
    → KeepsKnown py
    → (resolve_agent_permission_assignment py strip agent_id requested [] profiles).0.allowed ≡ true
    → IsKnown (py.normalize requested)
resolve_agent_permission_assignment-IsKnown py strip agent_id requested profiles again keeps e =
    let r = py.normalize requested in
    let xs = (combine_effective_scopes py [] profiles).resolved_scopes in
    let allowed = resolved-allowed py strip agent_id requested [] profiles e in
    let some_ = ((evaluate_agent_permission-covered py requested xs again).0 allowed).1 in
    Any-const (IsKnown r) xs (
      Any-of_All IsKnown xs (λ raw known a. authorised-IsKnown py keeps r raw known a)
        (resolved-IsKnown py keeps profiles) some_)
