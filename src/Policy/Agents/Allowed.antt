-- ===== src/Policy/Agents/Allowed.antt =====
-- When a request of an agent is allowed (backend/src/policy/agent_permissions.py).
use grantlayer.Prelude.{
  String, ◌≡◌, refl, ap, ◌∙◌, ◌⊎◌, ◌↔◌, inl, inr, true, false, not, List, [], ◌∷◌, arith, eq_iff,
  ◌==◌, is_empty, Any, Bool-cases, if-either,
}
use grantlayer.Policy.Agents.{
  ScopeText, Outcome, matches_re, has_parts, split_colon, two_parts, action_is, denied,
  is_valid_format, is_known_scope, covers, scope_matches, ignored, scan, evaluate_agent_permission,
}
use grantlayer.Policy.Agents.Known.{IsKnownScope, is_known_scope-IsKnownScope}

-- Normalising again changes nothing.
abbrev pub IsIdempotent : ScopeText → Type 0
IsIdempotent py = (s : String) → py.normalize (py.normalize s) ≡ py.normalize s

-- The scope, normalised, is well formed and allows the request: it is the same, or every known
-- scope, or every scope to read and the request is to read.
pub record Authorises (py : ScopeText) (requested raw : String) : Type 0 where
  pub formed : is_valid_format (py.normalize raw) ≡ true
  pub allows :
      (py.normalize raw ≡ requested)
      ⊎ ((py.normalize raw ≡ "admin:*") × (is_known_scope requested ≡ true))
      ⊎ ((py.normalize raw ≡ "*:read")
          × (action_is (λ a. a == "read") (two_parts (split_colon requested)) ≡ true))

covers-cases :
    (assigned requested : String)
    → (covers assigned requested ≡ true) ↔ (
        (assigned ≡ requested)
        ⊎ ((assigned ≡ "admin:*") × (is_known_scope requested ≡ true))
        ⊎ ((assigned ≡ "*:read")
            × (action_is (λ a. a == "read") (two_parts (split_colon requested)) ≡ true)))
unfolding covers
covers-cases assigned requested = (
  λ h.
      ground
        (arith, eq_iff assigned requested, eq_iff assigned "admin:*", eq_iff assigned "*:read"),
  λ h.
      ground
        (arith, eq_iff assigned requested, eq_iff assigned "admin:*", eq_iff assigned "*:read"),
)

not_empty : (s : String) → is_valid_format s ≡ true → is_empty s ≡ false
unfolding is_valid_format
not_empty s h = ground arith

module _ (py : ScopeText) (again : IsIdempotent py) (requested : String)
    (normal : py.normalize requested ≡ requested) (formed : is_valid_format requested ≡ true) where
  matches-covers :
      (raw : String)
      → is_valid_format (py.normalize raw) ≡ true
      → scope_matches py (py.normalize raw) requested ≡ covers (py.normalize raw) requested
  unfolding scope_matches
  matches-covers raw h = rw (again raw, normal, h, formed) refl

  -- The loop allows exactly where some scope does.
  scan-allowed :
      (assigned : List String)
      → ((scan py requested assigned).allowed ≡ true) ↔ Any (Authorises py requested) assigned
  unfolding scan denied
  scan-allowed [] = (λ h. absurd (ground arith), λ h. elim h [ ])
  scan-allowed (raw ∷ rest) =
      let n = py.normalize raw in
      let later = scan-allowed rest in
      let skip : is_valid_format n ≡ false
          → ((scan py requested rest).allowed ≡ true) ↔ Any (Authorises py requested) (raw ∷ rest) =
        λ bad. (
          λ h. inr (later.0 h),
          λ h. elim h [ inl a ↦ absurd (let f = a.formed in cc (f, bad)) | inr a ↦ later.1 a ],
        ) in
      elim (Bool-cases (is_valid_format n)) [
        | inl good ↦ elim (Bool-cases (covers n requested)) [
          | inl yes_ ↦
              rw (not_empty n good, good, matches-covers raw good, yes_)
                (
                  λ h. inl (record { formed = good; allows = (covers-cases n requested).0 yes_ }),
                  λ h. refl,
                )
          | inr no_ ↦
              rw (not_empty n good, good, matches-covers raw good, no_)
                (
                  λ h. inr (later.0 h),
                  λ h. elim h [
                    | inl a ↦ absurd (let c = (covers-cases n requested).1 a.allows in cc (c, no_))
                    | inr a ↦ later.1 a
                  ],
                )
        ]
        | inr bad ↦ elim (Bool-cases (is_empty n)) [
          | inl e ↦ rw e (skip bad)
          | inr e ↦ rw (e, bad) (unfold ignored in skip bad)
        ]
      ]

known-formed : (s : String) → is_known_scope s ≡ true → is_valid_format s ≡ true
unfolding is_known_scope
known-formed s h = ground arith

-- A request is allowed where the tests of the code say so.
pub evaluate_agent_permission-covered :
    (py : ScopeText) (requested : String) (assigned : List String)
    → IsIdempotent py
    → ((evaluate_agent_permission py requested assigned).allowed ≡ true) ↔ (
        (is_known_scope (py.normalize requested) ≡ true)
        × Any (Authorises py (py.normalize requested)) assigned)
unfolding evaluate_agent_permission denied
evaluate_agent_permission-covered py requested assigned again =
    let r = py.normalize requested in
    elim (Bool-cases (is_known_scope r)) [
      | inl known ↦
          let formed = known-formed r known in
          let step = scan-allowed py again r (again requested) formed assigned in
          rw (not_empty r formed, formed, known) (λ h. (refl, step.0 h), λ h. step.1 h.1)
      | inr unknown ↦ (
        λ h. absurd (
            if-either (λ (o : Outcome). o.allowed ≡ true → ⊥) (is_empty r) (λ _ e. ground arith)
              (λ _.
                if-either (λ (o : Outcome). o.allowed ≡ true → ⊥) (not (is_valid_format r))
                  (λ _ e. ground arith)
                  (λ _.
                    if-either (λ (o : Outcome). o.allowed ≡ true → ⊥) (not (is_known_scope r))
                      (λ _ e. ground arith) (λ k. absurd (cc (k, ap not unknown)))))
              h),
        λ h. absurd (let k = h.0 in cc (k, unknown)),
      )
    ]

Any-map :
    {P Q : String → Type 0} (xs : List String) → ((x : String) → P x → Q x) → Any P xs → Any Q xs
Any-map [] f h = h
Any-map (x ∷ xs) f (inl h) = inl (f x h)
Any-map (x ∷ xs) f (inr h) = inr (Any-map xs f h)

-- An assigned scope allows the request: it is the same, or admin:*, or *:read and the request's
-- action is to read.
pub Allows : ScopeText → String → String → Type 0
Allows py requested raw =
    (py.normalize raw ≡ requested)
    ⊎ (py.normalize raw ≡ "admin:*")
    ⊎ ((py.normalize raw ≡ "*:read")
        × ((domain : String) × (split_colon requested ≡ domain ∷ "read" ∷ [])))

Authorises-Allows :
    (py : ScopeText) (requested : String)
    → IsKnownScope requested
    → (raw : String) → Authorises py requested raw ↔ Allows py requested raw
unfolding Allows is_valid_format has_parts two_parts matches_re action_is
Authorises-Allows py requested known raw =
    let valid = known-formed requested ((is_known_scope-IsKnownScope requested).1 known) in
    (
      λ a. elim a.allows [
        | inl e ↦ inl e
        | inr (inl (e, k)) ↦ inr (inl e)
        | inr (inr (e, k)) ↦
            let read : known.action ≡ "read" =
              (eq_iff known.action "read").0 (rw known.parts at k) in
            inr (inr (e, (known.domain, known.parts ∙ ap (λ x. known.domain ∷ x ∷ []) read)))
      ],
      λ h. elim h [
        | inl e ↦ record { formed = rw e valid; allows = inl e }
        | inr (inl e) ↦ record {
          formed = rw e refl;
          allows = inr (inl (e, (is_known_scope-IsKnownScope requested).1 known));
        }
        | inr (inr (e, (d, p))) ↦ record { formed = rw e refl; allows = inr (inr (e, rw p refl)) }
      ],
    )

-- A request is allowed exactly where it is, once normalised, a known scope (two parts around one
-- colon, a word of a-z, 0-9, _, * and -, and one of the seven actions), and one of the assigned
-- scopes, normalised, is the same, or admin:*, or *:read for a request to read; where normalising a
-- text again changes nothing.
pub evaluate_agent_permission-allowed :
    (py : ScopeText) (requested : String) (assigned : List String)
    → IsIdempotent py
    → ((evaluate_agent_permission py requested assigned).allowed ≡ true)
      ↔ (IsKnownScope (py.normalize requested) × Any (Allows py (py.normalize requested)) assigned)
evaluate_agent_permission-allowed py requested assigned again =
    let covered = evaluate_agent_permission-covered py requested assigned again in
    let r = py.normalize requested in
    (
      λ h.
          let k = covered.0 h in
          let known = (is_known_scope-IsKnownScope r).0 k.0 in
          (known, Any-map assigned (λ raw. (Authorises-Allows py r known raw).0) k.1),
      λ (known, some_). covered.1 (
        (is_known_scope-IsKnownScope r).1 known,
        Any-map assigned (λ raw. (Authorises-Allows py r known raw).1) some_,
      ),
    )
