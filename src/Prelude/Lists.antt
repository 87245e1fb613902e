-- ===== src/Prelude/Lists.antt =====
-- Lists: measured by native numbers, filtered by Boolean tests, and predicates on their items.
use Prim.Native.Nat.{ℕ, zero, suc, ◌+◌, ◌≤◌}
use mathlib.Core.Path.{◌≡◌, refl, ap}
use mathlib.Core.Logic.{◌↔◌, ◌⊎◌, inl, inr}
use mathlib.Core.Bool.{Bool, true, false}
use mathlib.Core.List.{List, [], ◌∷◌, ◌++◌, map}
use mathlib.Core.Option.{Option, none, some}
use native.Mathlib.Omega.{arith}
use Prim.Native.String.{String}
use text.Mathlib.Text.{◌==◌}
use grantlayer.Prelude.Tests.{if◌then◌else◌, Bool-cases}

module _ {ℓ} {A : Type ℓ} where
  abbrev pub length : List A → ℕ
  length [] = 0
  length (x ∷ xs) = suc (length xs)

  -- The items that pass a test, in order.
  unfoldable pub select : (A → Bool) → List A → List A
  select p [] = []
  select p (x ∷ xs) = let rest = select p xs in if p x then x ∷ rest else rest

  abbrev pub head? : List A → Option A
  head? [] = none
  head? (x ∷ xs) = some x

  abbrev pub last? : List A → Option A
  last? [] = none
  last? (x ∷ []) = some x
  last? (x ∷ y ∷ xs) = last? (y ∷ xs)

  pub length-append : (xs ys : List A) → length (xs ++ ys) ≡ length xs + length ys
  length-append [] ys = omega arith
  length-append (x ∷ xs) ys = omega (arith, length-append xs ys)

  pub select-append :
      (p : A → Bool) (xs ys : List A) → select p (xs ++ ys) ≡ select p xs ++ select p ys
  unfolding select
  select-append p [] ys = refl
  select-append p (x ∷ xs) ys = ground (arith, select-append p xs ys)

module _ {ℓ} {A : Type ℓ} where
  -- A stable sort: `lt` is the strict order, and equal items keep their order.
  insert_by : (A → A → Bool) → A → List A → List A
  insert_by lt x [] = x ∷ []
  insert_by lt x (y ∷ ys) = let rest = insert_by lt x ys in if lt y x then y ∷ rest else x ∷ y ∷ ys

  unfoldable pub sort_by : (A → A → Bool) → List A → List A
  unfolding insert_by
  sort_by lt [] = []
  sort_by lt (x ∷ xs) = insert_by lt x (sort_by lt xs)

module _ {ℓ} {A : Type ℓ} where
  -- Every item has the property.
  abbrev pub All : (A → Type 0) → List A → Type 0
  All P [] = Unit
  All P (x ∷ xs) = P x × All P xs

  -- Some item has it, with its place.
  abbrev pub Any : (A → Type 0) → List A → Type 0
  Any P [] = ⊥
  Any P (x ∷ xs) = P x ⊎ Any P xs

module _ {ℓ} {A : Type ℓ} (P : A → Type 0) where
  All-insert_by :
      (lt : A → A → Bool) (x : A) (xs : List A) → All P (insert_by lt x xs) ↔ (P x × All P xs)
  unfolding insert_by
  All-insert_by lt x [] = (λ h. h, λ h. h)
  All-insert_by lt x (y ∷ ys) = elim (Bool-cases (lt y x)) [
    | inl later ↦ rw later (
      λ h. (((All-insert_by lt x ys).0 h.1).0, (h.0, ((All-insert_by lt x ys).0 h.1).1)),
      λ h. (h.1.0, (All-insert_by lt x ys).1 (h.0, h.1.1)),
    )
    | inr here ↦ rw here (λ h. h, λ h. h)
  ]

  pub All-sort_by : (lt : A → A → Bool) (xs : List A) → All P (sort_by lt xs) ↔ All P xs
  unfolding sort_by
  All-sort_by lt [] = (λ h. h, λ h. h)
  All-sort_by lt (x ∷ xs) = (
    λ h. let k = (All-insert_by lt x (sort_by lt xs)).0 h in (k.0, (All-sort_by lt xs).0 k.1),
    λ h. (All-insert_by lt x (sort_by lt xs)).1 (h.0, (All-sort_by lt xs).1 h.1),
  )

  pub All-append : (xs ys : List A) → All P (xs ++ ys) ↔ (All P xs × All P ys)
  All-append [] ys = (λ h. (tt, h), λ h. h.1)
  All-append (x ∷ xs) ys = (
    λ h. let k = (All-append xs ys).0 h.1 in ((h.0, k.0), k.1),
    λ h. (h.0.0, (All-append xs ys).1 (h.0.1, h.1)),
  )

  -- What holds of every item and picks one out holds of that one.
  pub Any-of_All :
      {Q R : A → Type 0} (xs : List A)
      → ((x : A) → P x → Q x → R x)
      → All P xs
      → Any Q xs
      → Any R xs
  Any-of_All [] f h k = k
  Any-of_All (x ∷ xs) f h (inl q) = inl (f x h.0 q)
  Any-of_All (x ∷ xs) f h (inr k) = inr (Any-of_All xs f h.1 k)

module _ {ℓ} {A : Type ℓ} (P : A → Type 0) (p : A → Bool) where
  pub Any-select : (xs : List A) → Any P (select p xs) → Any P xs
  unfolding select
  Any-select [] h = h
  Any-select (x ∷ xs) h = elim (Bool-cases (p x)) [
    | inl e ↦ elim (rw e at h) [ inl here ↦ inl here | inr there ↦ inr (Any-select xs there) ]
    | inr e ↦ inr (Any-select xs (rw e at h))
  ]

  pub select-Any : ((x : A) → P x → p x ≡ true) → (xs : List A) → Any P xs → Any P (select p xs)
  unfolding select
  select-Any f [] h = elim h [ ]
  select-Any f (x ∷ xs) (inl here) = rw (f x here) (inl here)
  select-Any f (x ∷ xs) (inr there) = elim (Bool-cases (p x)) [
    | inl e ↦ rw e (inr (select-Any f xs there))
    | inr e ↦ rw e (select-Any f xs there)
  ]

  -- Every selected item passed the test.
  pub All-select : ((x : A) → p x ≡ true → P x) → (xs : List A) → All P (select p xs)
  unfolding select
  All-select f [] = tt
  All-select f (x ∷ xs) = elim (Bool-cases (p x)) [
    | inl e ↦ rw e (f x e, All-select f xs)
    | inr e ↦ rw e (All-select f xs)
  ]

module _ {ℓ} {A : Type ℓ} where
  -- No item comes before an earlier one.
  abbrev pub IsOrdered : (A → A → Bool) → List A → Type 0
  IsOrdered lt [] = Unit
  IsOrdered lt (x ∷ xs) = All (λ y. lt y x ≡ false) xs × IsOrdered lt xs

  insert_by-front :
      (lt : A → A → Bool) (x : A) (xs : List A)
      → All (λ y. lt y x ≡ false) xs
      → insert_by lt x xs ≡ x ∷ xs
  unfolding insert_by
  insert_by-front lt x [] h = refl
  insert_by-front lt x (y ∷ ys) h = rw h.0

  -- Sorting leaves an ordered list alone.
  pub sort_by-IsOrdered : (lt : A → A → Bool) (xs : List A) → IsOrdered lt xs → sort_by lt xs ≡ xs
  unfolding sort_by
  sort_by-IsOrdered lt [] h = refl
  sort_by-IsOrdered lt (x ∷ xs) h = rw (sort_by-IsOrdered lt xs h.1) (insert_by-front lt x xs h.0)

  -- One more item at the end, with no earlier item behind it.
  pub IsOrdered-snoc :
      (lt : A → A → Bool) (xs : List A) (n : A)
      → IsOrdered lt xs
      → All (λ x. lt n x ≡ false) xs
      → IsOrdered lt (xs ++ n ∷ [])
  IsOrdered-snoc lt [] n h k = (tt, tt)
  IsOrdered-snoc lt (x ∷ xs) n h k = (
    (All-append (λ y. lt y x ≡ false) xs (n ∷ [])).1 (h.0, (k.0, tt)),
    IsOrdered-snoc lt xs n h.1 k.1,
  )

  -- A test that every item passes keeps the list.
  pub select_kept : (p : A → Bool) (xs : List A) → All (λ x. p x ≡ true) xs → select p xs ≡ xs
  unfolding select
  select_kept p [] h = refl
  select_kept p (x ∷ xs) h = ground (arith, h.0, select_kept p xs h.1)

  pub All-map : {P Q : A → Type 0} (xs : List A) → ((x : A) → P x → Q x) → All P xs → All Q xs
  All-map [] f h = tt
  All-map (x ∷ xs) f h = (f x h.0, All-map xs f h.1)

module _ {ℓ} {A : Type ℓ} (f : A → A) where
  insert_by-map :
      (lt : A → A → Bool)
      → ((a b : A) → lt (f a) (f b) ≡ lt a b)
      → (x : A) (xs : List A) → insert_by lt (f x) (map f xs) ≡ map f (insert_by lt x xs)
  unfolding insert_by
  insert_by-map lt same x [] = refl
  insert_by-map lt same x (y ∷ ys) = elim (Bool-cases (lt y x)) [
    | inl e ↦ rw (same y x, e) (ap (λ l. f y ∷ l) (insert_by-map lt same x ys))
    | inr e ↦ rw (same y x, e) refl
  ]

  -- A map that keeps the order goes under the sort, and one that keeps the test under the filter.
  pub sort_by-map :
      (lt : A → A → Bool)
      → ((a b : A) → lt (f a) (f b) ≡ lt a b)
      → (xs : List A) → sort_by lt (map f xs) ≡ map f (sort_by lt xs)
  unfolding sort_by
  sort_by-map lt same [] = refl
  sort_by-map lt same (x ∷ xs) =
      rw (sort_by-map lt same xs) (insert_by-map lt same x (sort_by lt xs))

  pub select-map :
      (p : A → Bool)
      → ((a : A) → p (f a) ≡ p a)
      → (xs : List A) → select p (map f xs) ≡ map f (select p xs)
  unfolding select
  select-map p same [] = refl
  select-map p same (x ∷ xs) = ground (arith, same x, select-map p same xs)

  pub length-map : (xs : List A) → length (map f xs) ≡ length xs
  length-map [] = refl
  length-map (x ∷ xs) = ap suc (length-map xs)

module _ {ℓ} {A : Type ℓ} where
  -- `UPDATE … SET … WHERE …`: the rows after it.
  unfoldable pub update_where : (A → Bool) → (A → A) → List A → List A
  update_where p f [] = []
  update_where p f (x ∷ xs) = (if p x then f x else x) ∷ update_where p f xs

  -- Whether any row fits: `rowcount > 0` of an update.
  unfoldable pub any_where : (A → Bool) → List A → Bool
  any_where p [] = false
  any_where p (x ∷ xs) = let rest = any_where p xs in if p x then true else rest

  -- The first row that fits: `.scalars().first()`.
  unfoldable pub first_where : (A → Bool) → List A → Option A
  first_where p [] = none
  first_where p (x ∷ xs) = let rest = first_where p xs in if p x then some x else rest

  abbrev pub drop : ℕ → List A → List A
  drop zero xs = xs
  drop (suc n) [] = []
  drop (suc n) (x ∷ xs) = drop n xs

  abbrev pub take : ℕ → List A → List A
  take zero xs = []
  take (suc n) [] = []
  take (suc n) (x ∷ xs) = x ∷ take n xs

  -- `LIMIT … OFFSET …`, where a limit was given.
  abbrev pub page : Option ℕ → ℕ → List A → List A
  page none offset xs = xs
  page (some limit) offset xs = take limit (drop offset xs)

module _ {ℓ} {A : Type ℓ} where
  -- An update that no item meets changes nothing.
  pub update_where-none :
      (p : A → Bool) (f : A → A) (xs : List A) → any_where p xs ≡ false → update_where p f xs ≡ xs
  unfolding any_where update_where
  update_where-none p f [] h = refl
  update_where-none p f (x ∷ xs) h = ground (arith, update_where-none p f xs)

  pub any_where-append :
      (p : A → Bool) (xs ys : List A) → any_where p xs ≡ true → any_where p (xs ++ ys) ≡ true
  unfolding any_where
  any_where-append p [] ys h = absurd (ground arith)
  any_where-append p (x ∷ xs) ys h = ground (arith, any_where-append p xs ys)

module _ {ℓ} {A : Type ℓ} (P : A → Type 0) where
  pub select-All : (p : A → Bool) (xs : List A) → All P xs → All P (select p xs)
  unfolding select
  select-All p [] h = tt
  select-All p (x ∷ xs) h = elim (Bool-cases (p x)) [
    | inl e ↦ rw e (h.0, select-All p xs h.1)
    | inr e ↦ rw e (select-All p xs h.1)
  ]

  drop-All : (n : ℕ) (xs : List A) → All P xs → All P (drop n xs)
  drop-All zero xs h = h
  drop-All (suc n) [] h = tt
  drop-All (suc n) (x ∷ xs) h = drop-All n xs h.1

  take-All : (n : ℕ) (xs : List A) → All P xs → All P (take n xs)
  take-All zero xs h = tt
  take-All (suc n) [] h = tt
  take-All (suc n) (x ∷ xs) h = (h.0, take-All n xs h.1)

  pub page-All :
      (limit : Option ℕ) (offset : ℕ) (xs : List A) → All P xs → All P (page limit offset xs)
  page-All none offset xs h = h
  page-All (some n) offset xs h = take-All n (drop offset xs) (drop-All offset xs h)

module _ {ℓ} {A : Type ℓ} where
  -- The stronger test selects no more.
  pub length-select_mono :
      (p q : A → Bool)
      → ((x : A) → p x ≡ true → q x ≡ true)
      → (xs : List A) → length (select p xs) ≤ length (select q xs)
  unfolding select
  length-select_mono p q f [] = omega arith
  length-select_mono p q f (x ∷ xs) = elim (Bool-cases (p x)) [
    | inl e ↦ rw (e, f x e) (omega (arith, length-select_mono p q f xs))
    | inr e ↦ elim (Bool-cases (q x)) [
      | inl k ↦ rw (e, k) (omega (arith, length-select_mono p q f xs))
      | inr k ↦ rw (e, k) (length-select_mono p q f xs)
    ]
  ]

module _ {ℓ} {A : Type ℓ} (P : A → Type 0) where
  Any-insert_by :
      (lt : A → A → Bool) (x : A) (xs : List A) → Any P (insert_by lt x xs) → Any P (x ∷ xs)
  unfolding insert_by
  Any-insert_by lt x [] h = h
  Any-insert_by lt x (y ∷ ys) h = elim (Bool-cases (lt y x)) [
    | inl later ↦ elim (rw later at h) [
      | inl here ↦ inr (inl here)
      | inr there ↦ elim (Any-insert_by lt x ys there) [ inl k ↦ inl k | inr k ↦ inr (inr k) ]
    ]
    | inr here ↦ rw here at h
  ]

  pub Any-sort_by : (lt : A → A → Bool) (xs : List A) → Any P (sort_by lt xs) → Any P xs
  unfolding sort_by
  Any-sort_by lt [] h = h
  Any-sort_by lt (x ∷ xs) h = elim (Any-insert_by lt x (sort_by lt xs) h) [
    | inl k ↦ inl k
    | inr k ↦ inr (Any-sort_by lt xs k)
  ]

  pub Any-append : (xs ys : List A) → Any P (xs ++ ys) → Any P xs ⊎ Any P ys
  Any-append [] ys h = inr h
  Any-append (x ∷ xs) ys (inl h) = inl (inl h)
  Any-append (x ∷ xs) ys (inr h) = elim (Any-append xs ys h) [ inl k ↦ inl (inr k) | inr k ↦ inr k ]

-- `s in texts`
abbrev pub mem : String → List String → Bool
mem s texts = any_where (λ t. s == t) texts
