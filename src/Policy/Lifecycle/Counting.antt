-- ===== src/Policy/Lifecycle/Counting.antt =====
-- The roles that count as approvals (backend/src/policy/approval_lifecycle.py).
use grantlayer.Prelude.{
  mem, ◌≤◌, String, ◌≡◌, refl, sym, ◌⊎◌, inl, inr, Bool, true, false, not, ◌&&◌, Option, none, some,
  List, [], ◌∷◌, ◌++◌, arith, eq_iff, ◌==◌, is_empty, any_where, before, sort_by, length, All,
  All-append, Any, Any-sort_by, Any-append, Bool-cases, if◌then◌else◌,
}
use grantlayer.Policy.Lifecycle.{
  Approver, dict_approver, other_approver, key_of, is_dict, unique, normalise_approvers, count_role,
  approved_roles_from, approved_roles,
}

abbrev pub role_of : Approver → Option String
role_of (dict_approver key role) = role
role_of (other_approver s) = none

-- A dict among the approvers has the role.
abbrev pub HasRole : String → List Approver → Type 0
HasRole s approvers = Any (λ a. role_of a ≡ some s) approvers

-- No text twice.
abbrev pub IsDistinct : List String → Type 0
IsDistinct [] = Unit
IsDistinct (x ∷ xs) = (mem x xs ≡ false) × IsDistinct xs

module _ (P : Approver → Type 0) where
  Any-unique :
      (kind : Bool) (seen approvers : List Approver)
      → Any P (unique kind seen approvers)
      → Any P seen ⊎ Any P approvers
  unfolding unique
  Any-unique kind seen [] h = inl h
  Any-unique kind seen (a ∷ rest) h =
      elim (Bool-cases (
        (if is_dict a then kind else not kind)
        && not (any_where (λ b. key_of a == key_of b) seen))) [
          | inl e ↦ elim (Any-unique kind (seen ++ a ∷ []) rest (rw e at h)) [
            | inl k ↦ elim (Any-append P seen (a ∷ []) k) [
              | inl l ↦ inl l
              | inr (inl l) ↦ inr (inl l)
              | inr (inr l) ↦ elim l [ ]
            ]
            | inr k ↦ inr (inr k)
          ]
          | inr e ↦ elim (Any-unique kind seen rest (rw e at h)) [
            | inl k ↦ inl k
            | inr k ↦ inr (inr k)
          ]
        ]

  unique-Any :
      (kind : Bool) (approvers : List Approver) → Any P (unique kind [] approvers) → Any P approvers
  unique-Any kind approvers h = elim (Any-unique kind [] approvers h) [
    | inl k ↦ elim k [ ]
    | inr k ↦ k
  ]

  -- Normalising makes no approver up.
  pub normalise-Any :
      (approvers : List Approver) → Any P (normalise_approvers approvers) → Any P approvers
  unfolding normalise_approvers
  normalise-Any approvers h =
      let by_key = λ (a b : Approver). before (key_of a) (key_of b) in
      let dicts = sort_by by_key (unique true [] approvers) in
      let others = sort_by by_key (unique false [] approvers) in
      elim (Any-append P dicts others h) [
        | inl k ↦ unique-Any true approvers (Any-sort_by P by_key (unique true [] approvers) k)
        | inr k ↦ unique-Any false approvers (Any-sort_by P by_key (unique false [] approvers) k)
      ]

mem-append :
    (s : String) (xs : List String) (y : String)
    → (s == y) ≡ false
    → mem s xs ≡ false
    → mem s (xs ++ y ∷ []) ≡ false
unfolding any_where
mem-append s [] y h k = rw h refl
mem-append s (x ∷ xs) y h k = ground (arith, mem-append s xs y h)

IsDistinct-snoc :
    (xs : List String) (y : String) → IsDistinct xs → mem y xs ≡ false → IsDistinct (xs ++ y ∷ [])
unfolding any_where
IsDistinct-snoc [] y h k = (refl, tt)
IsDistinct-snoc (x ∷ xs) y h k = (
  mem-append x xs y (ground (arith, eq_iff x y, eq_iff y x)) h.0,
  IsDistinct-snoc xs y h.1 (ground arith),
)

-- The roles found are distinct, required, and each that of a dict among the approvers.
pub record IsCounted (required : List String) (approvers : List Approver) (found : List String)
    : Type 0 where
  pub distinct : IsDistinct found
  pub counted : All (λ s. (mem s required ≡ true) × HasRole s approvers) found

module _ (required : List String) (approvers : List Approver) where
  count_role-IsCounted :
      (found : List String) (a : Approver)
      → ((s : String) → role_of a ≡ some s → HasRole s approvers)
      → IsCounted required approvers found
      → IsCounted required approvers (count_role required found a)
  unfolding count_role
  count_role-IsCounted found (other_approver s) f h = h
  count_role-IsCounted found (dict_approver key none) f h = h
  count_role-IsCounted found (dict_approver key (some role)) f h =
      elim (Bool-cases (not (is_empty role) && (mem role required && not (mem role found)))) [
        | inl e ↦ rw e (record {
          distinct = IsDistinct-snoc found role h.distinct (ground arith);
          counted =
              (All-append (λ s. (mem s required ≡ true) × HasRole s approvers) found (role ∷ [])).1
                (h.counted, ((ground arith, f role refl), tt));
        })
        | inr e ↦ rw e h
      ]

  from-IsCounted :
      (found : List String) (rest : List Approver)
      → ((s : String) → HasRole s rest → HasRole s approvers)
      → IsCounted required approvers found
      → IsCounted required approvers (approved_roles_from required found rest)
  unfolding approved_roles_from
  from-IsCounted found [] f h = h
  from-IsCounted found (a ∷ rest) f h =
      from-IsCounted (count_role required found a) rest (λ s k. f s (inr k))
        (count_role-IsCounted found a (λ s k. f s (inl k)) h)

pub approved_roles-IsCounted :
    (required : List String) (approvers : List Approver)
    → IsCounted required approvers (approved_roles approvers required)
unfolding approved_roles
approved_roles-IsCounted [] approvers = record { distinct = tt; counted = tt }
approved_roles-IsCounted (r ∷ rs) approvers =
    from-IsCounted (r ∷ rs) approvers [] approvers (λ s k. k)
      (record { distinct = tt; counted = tt })

-- Two distinct texts of a list of two are both of them.
mem-two : (s a b : String) → mem s (a ∷ b ∷ []) ≡ true → (s ≡ a) ⊎ (s ≡ b)
unfolding any_where
mem-two s a b h = ground (arith, eq_iff s a, eq_iff s b)

pub two_of_two :
    (a b : String) (approvers : List Approver) (found : List String)
    → IsCounted (a ∷ b ∷ []) approvers found
    → 2 ≤ length found
    → HasRole a approvers × HasRole b approvers
unfolding any_where
two_of_two a b approvers [] h le = absurd (omega (arith, le))
two_of_two a b approvers (x ∷ []) h le = absurd (omega (arith, le))
two_of_two a b approvers (x ∷ y ∷ rest) h le =
    let px = h.counted.0 in
    let py = h.counted.1.0 in
    elim (mem-two x a b px.0) [
      | inl xa ↦ elim (mem-two y a b py.0) [
        | inl ya ↦ absurd (let d = h.distinct.0 in ground (arith, eq_iff x y))
        | inr yb ↦ (rw (sym xa) px.1, rw (sym yb) py.1)
      ]
      | inr xb ↦ elim (mem-two y a b py.0) [
        | inl ya ↦ (rw (sym ya) py.1, rw (sym xb) px.1)
        | inr yb ↦ absurd (let d = h.distinct.0 in ground (arith, eq_iff x y))
      ]
    ]

pub one_of_one :
    (a : String) (approvers : List Approver) (found : List String)
    → IsCounted (a ∷ []) approvers found
    → 1 ≤ length found
    → HasRole a approvers
unfolding any_where
one_of_one a approvers [] h le = absurd (omega (arith, le))
one_of_one a approvers (x ∷ rest) h le =
    let px = h.counted.0 in
    let same : x ≡ a = let q = px.0 in ground (arith, eq_iff x a) in rw (sym same) px.1
