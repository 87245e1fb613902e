-- ===== src/Policy/Agents/Known.antt =====
-- The scopes that the evaluator knows (backend/src/policy/agent_permissions.py), stated on the parts
-- of a scope and the numbers of its characters.
use Prim.Native.Char.{Char, code}
use grantlayer.Prelude.{
  ℕ, ◌≤◌, String, ◌≡◌, ◌≢◌, refl, ap, ◌⊎◌, ◌↔◌, inl, inr, Bool, true, false, some, List, [], ◌∷◌,
  arith, eq_iff, ◌==◌, is_empty, mem, any_where, Any, Bool-cases, Option-cases,
}
use grantlayer.Policy.Agents.{
  split_colon, two_parts, has_parts, action_is, within, is_scope_char, all_scope_chars, to_end,
  plus_to_end, matches_re, known_actions, is_valid_format, is_known_scope,
}

-- A letter from a to z, a digit, an underscore, an asterisk or a hyphen, by its number.
pub IsScopeCode : ℕ → Type 0
IsScopeCode n = ((97 ≤ n) × (n ≤ 122)) ⊎ ((48 ≤ n) × (n ≤ 57)) ⊎ (n ≡ 95) ⊎ (n ≡ 42) ⊎ (n ≡ 45)

-- Every character is one of those.
pub IsWord : String → Type 0
IsWord String.[] = Unit
IsWord (String.◌∷◌ c s) = IsScopeCode (code c) × IsWord s

-- Two parts around one colon, a word and one of the seven actions.
pub record IsKnownScope (scope : String) : Type 0 where
  pub domain : String
  pub action : String
  pub parts : split_colon scope ≡ domain ∷ action ∷ []
  pub named : domain ≢ ""
  pub word : IsWord domain
  pub known :
      Any (λ a. action ≡ a) ("read" ∷ "verify" ∷ "write" ∷ "admin" ∷ "create" ∷ "delete" ∷ "*" ∷ [])

scope_char-IsScopeCode : (c : Char) → (is_scope_char c ≡ true) ↔ IsScopeCode (code c)
unfolding is_scope_char within IsScopeCode
scope_char-IsScopeCode c = (λ h. ground arith, λ h. ground arith)

chars-IsWord : (s : String) → (all_scope_chars s ≡ true) ↔ IsWord s
unfolding all_scope_chars IsWord
chars-IsWord String.[] = (λ h. tt, λ h. refl)
chars-IsWord (String.◌∷◌ c s) =
    let one = scope_char-IsScopeCode c in
    let rest = chars-IsWord s in
    (
      λ h. (one.0 (ground arith), rest.0 (ground arith)),
      λ h. let k = one.1 h.0 in let l = rest.1 h.1 in ground arith,
    )

mem-Any : (s : String) (xs : List String) → (mem s xs ≡ true) ↔ Any (λ x. s ≡ x) xs
unfolding any_where
mem-Any s [] = (λ h. absurd (ground arith), λ h. elim h [ ])
mem-Any s (x ∷ xs) = elim (Bool-cases (s == x)) [
  | inl e ↦ (λ h. inl ((eq_iff s x).0 e), λ h. ground (arith, e))
  | inr e ↦ (
    λ h. inr ((mem-Any s xs).0 (ground (arith, e))),
    λ h. elim h [
      | inl k ↦ absurd (let l = (eq_iff s x).1 k in cc (l, e))
      | inr k ↦ let l = (mem-Any s xs).1 k in ground (arith, e, l)
    ],
  )
]

two_parts-some : (xs : List String) (d a : String) → two_parts xs ≡ some (d, a) → xs ≡ d ∷ a ∷ []
unfolding two_parts
two_parts-some [] d a h = absurd (ground arith)
two_parts-some (x ∷ []) d a h = absurd (ground arith)
two_parts-some (x ∷ y ∷ []) d a h = ground arith
two_parts-some (x ∷ y ∷ z ∷ xs) d a h = absurd (ground arith)

-- The known actions match the end of the pattern.
action-ends : (a : String) → Any (λ x. a ≡ x) known_actions → plus_to_end a ≡ true
unfolding plus_to_end to_end is_scope_char within
action-ends a (inl e) = rw e refl
action-ends a (inr (inl e)) = rw e refl
action-ends a (inr (inr (inl e))) = rw e refl
action-ends a (inr (inr (inr (inl e)))) = rw e refl
action-ends a (inr (inr (inr (inr (inl e))))) = rw e refl
action-ends a (inr (inr (inr (inr (inr (inl e)))))) = rw e refl
action-ends a (inr (inr (inr (inr (inr (inr (inl e))))))) = rw e refl
action-ends a (inr (inr (inr (inr (inr (inr (inr h))))))) = elim h [ ]

starts_empty : String → Bool
starts_empty String.[] = true
starts_empty (String.◌∷◌ c s) = false

longer : (c : Char) (s : String) → is_empty (String.◌∷◌ c s) ≡ false
unfolding starts_empty
longer c s = elim (Bool-cases (is_empty (String.◌∷◌ c s))) [
  | inl e ↦ let k = ap starts_empty ((eq_iff (String.◌∷◌ c s) "").0 e) in absurd (ground arith)
  | inr e ↦ e
]

split_colon-named : (s d a : String) → split_colon s ≡ d ∷ a ∷ [] → is_empty s ≡ false
unfolding split_colon
split_colon-named String.[] d a h = absurd (ground arith)
split_colon-named (String.◌∷◌ c s) d a h = longer c s

unnamed : (a : String) → plus_to_end a ≡ true → is_empty a ≡ false
unfolding plus_to_end
unnamed String.[] h = absurd (ground arith)
unnamed (String.◌∷◌ c s) h = longer c s

pub is_known_scope-IsKnownScope : (s : String) → (is_known_scope s ≡ true) ↔ IsKnownScope s
unfolding is_known_scope is_valid_format has_parts matches_re action_is
is_known_scope-IsKnownScope s = (
  λ h. elim (Option-cases (two_parts (split_colon s))) [
    | inl e ↦ absurd (ground (arith, e))
    | inr ((d, a), e) ↦
        let k = rw e at h in
        record {
          domain = d;
          action = a;
          parts = two_parts-some (split_colon s) d a e;
          named = λ n. let x = (eq_iff d "").1 n in absurd (ground arith);
          word = (chars-IsWord d).0 (ground arith);
          known = (mem-Any a known_actions).0 (ground arith);
        }
  ],
  λ k.
      let whole = split_colon-named s k.domain k.action k.parts in
      let word = (chars-IsWord k.domain).1 k.word in
      let known = (mem-Any k.action known_actions).1 k.known in
      let ends = action-ends k.action k.known in
      let named : is_empty k.domain ≡ false =
        let n = k.named in ground (arith, eq_iff k.domain "") in
      let spoken : is_empty k.action ≡ false = unnamed k.action ends in
      rw (k.parts, whole) (unfold two_parts in rw (named, spoken, word, ends, known) refl),
)
