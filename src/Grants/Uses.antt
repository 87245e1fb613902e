-- ===== src/Grants/Uses.antt =====
-- The use counter: what one consumption does, and how many there can be.
use grantlayer.Prelude.{
  ℕ, zero, suc, ◌+◌, ◌≤◌, ◌<◌, String, ◌≡◌, refl, ap, ◌∙◌, ◌-◌, ltb, Bool, true, false, some, List,
  [], ◌∷◌, arith, All, update_where, any_where, Bool-cases, inl, inr, if◌then◌else◌,
}
use Prim.Native.Nat.{min}
use grantlayer.Grants.{GrantRow, has_id, has_uses, is_consumable, add_use, try_consume_use}

-- The grants of this id have this limit and this count.
abbrev pub HasCount : String → ℕ → ℕ → List GrantRow → Type 0
HasCount grant_id m u =
    All (λ row.
      has_id grant_id row ≡ true → (row.grant.max_uses ≡ some m) × (row.grant.use_count ≡ u))

abbrev Counts : String → ℕ → ℕ → GrantRow → Type 0
Counts grant_id m u row =
    has_id grant_id row ≡ true → (row.grant.max_uses ≡ some m) × (row.grant.use_count ≡ u)

consumable-left :
    (grant_id : String) (m u : ℕ) (row : GrantRow)
    → Counts grant_id m u row
    → u < m
    → is_consumable grant_id row ≡ has_id grant_id row
unfolding is_consumable has_uses
consumable-left grant_id m u row h lt = elim (Bool-cases (has_id grant_id row)) [
  | inl hit ↦ let (em, eu) = h hit in ground arith
  | inr miss ↦ ground arith
]

consumable-spent :
    (grant_id : String) (m : ℕ) (row : GrantRow)
    → Counts grant_id m m row
    → is_consumable grant_id row ≡ false
unfolding is_consumable has_uses
consumable-spent grant_id m row h = elim (Bool-cases (has_id grant_id row)) [
  | inl hit ↦ let (em, eu) = h hit in ground arith
  | inr miss ↦ ground arith
]

module _ (grant_id : String) (m : ℕ) where
  consume_row :
      (u : ℕ) (row : GrantRow)
      → Counts grant_id m u row
      → u < m
      → Counts grant_id m (u + 1) (if is_consumable grant_id row then add_use row else row)
  unfolding add_use
  consume_row u row h lt = elim (Bool-cases (has_id grant_id row)) [
    | inl hit ↦
        let (em, eu) = h hit in
        rw (consumable-left grant_id m u row h lt ∙ hit) (λ _. (em, ap (λ n. n + 1) eu))
    | inr miss ↦ rw (consumable-left grant_id m u row h lt ∙ miss) (λ hit. absurd (cc (hit, miss)))
  ]

  -- With uses left, an attempt succeeds if the grant is there, and counts one.
  consume_left :
      (u : ℕ) (rows : List GrantRow)
      → HasCount grant_id m u rows
      → u < m
      → HasCount grant_id m (u + 1) (try_consume_use grant_id rows).1
        × ((try_consume_use grant_id rows).0 ≡ any_where (has_id grant_id) rows)
        × (any_where (has_id grant_id) (try_consume_use grant_id rows).1
            ≡ any_where (has_id grant_id) rows)
  unfolding try_consume_use update_where any_where
  consume_left u rows h lt = go rows h
    where
      same_id :
          (row : GrantRow)
          → has_id grant_id (if is_consumable grant_id row then add_use row else row)
            ≡ has_id grant_id row
      same_id row = elim (Bool-cases (is_consumable grant_id row)) [
        | inl e ↦ rw e refl
        | inr e ↦ rw e refl
      ]

      go :
          (rs : List GrantRow)
          → HasCount grant_id m u rs
          → HasCount grant_id m (u + 1) (update_where (is_consumable grant_id) add_use rs)
            × (any_where (is_consumable grant_id) rs ≡ any_where (has_id grant_id) rs)
            × (any_where (has_id grant_id) (update_where (is_consumable grant_id) add_use rs)
                ≡ any_where (has_id grant_id) rs)
      go [] k = (tt, refl, refl)
      go (r ∷ rs) k =
          let rest = go rs k.1 in
          (
            (consume_row u r k.0 lt, rest.0),
            rw (consumable-left grant_id m u r k.0 lt, rest.1),
            rw (same_id r, rest.2),
          )

  -- With no use left, an attempt fails and changes nothing.
  consume_spent :
      (rows : List GrantRow)
      → HasCount grant_id m m rows
      → try_consume_use grant_id rows ≡ (false, rows)
  unfolding try_consume_use update_where any_where
  consume_spent rows h = go rows h
    where
      go :
          (rs : List GrantRow)
          → HasCount grant_id m m rs
          → ◌≡◌ {A = Bool × List GrantRow}
              (
                any_where (is_consumable grant_id) rs,
                update_where (is_consumable grant_id) add_use rs,
              )
              (false, rs)
      go [] k = refl
      go (r ∷ rs) k = let rest = go rs k.1 in rw (consumable-spent grant_id m r k.0) (cc rest)

-- `k` attempts in a row: how many succeed, and the table after them.
pub attempts : ℕ → String → List GrantRow → ℕ × List GrantRow
attempts zero grant_id rows = (0, rows)
attempts (suc k) grant_id rows =
    let (n, rows') = attempts k grant_id (try_consume_use grant_id rows).1 in
    ((if (try_consume_use grant_id rows).0 then n + 1 else n), rows')

-- Of `k` attempts on a grant that is there, has the limit `m` and was used `u` times, the first
-- `m - u` succeed and no more, and its count never passes `m`.
pub attempts-min :
    (k : ℕ) (grant_id : String) (m u : ℕ) (rows : List GrantRow)
    → HasCount grant_id m u rows
    → any_where (has_id grant_id) rows ≡ true
    → u ≤ m
    → ((attempts k grant_id rows).0 ≡ min k (m - u))
      × HasCount grant_id m (u + min k (m - u)) (attempts k grant_id rows).1
unfolding attempts
attempts-min zero grant_id m u rows h there le =
    (omega arith, let e : u + min 0 (m - u) ≡ u = omega arith in rw e h)
attempts-min (suc k) grant_id m u rows h there le = elim (Bool-cases (ltb u m)) [
  | inl left ↦
      let step = consume_left grant_id m u rows h (ground arith) in
      let rows' = (try_consume_use grant_id rows).1 in
      let rest = attempts-min k grant_id m (u + 1) rows' step.0 (step.2 ∙ there) (ground arith) in
      let used : u + min (suc k) (m - u) ≡ (u + 1) + min k (m - (u + 1)) = ground arith in
      (rw (step.1 ∙ there) (ground (arith, rest.0)), rw used rest.1)
  | inr spent ↦
      let full : u ≡ m = ground arith in
      let step = consume_spent grant_id m rows (rw full at h) in
      let rest = attempts-min k grant_id m u rows h there le in
      let used : u + min (suc k) (m - u) ≡ u + min k (m - u) = ground arith in
      (rw step (ground (arith, rest.0)), rw (step, used) rest.1)
]
