-- ===== src/Prelude/Texts.antt =====
-- The order of texts: of two texts one is before the other, or they are equal.
use Prim.Native.Char.{Char, code}
use Prim.Native.Nat.{ℕ, Ordering, compare as compare_ℕ}
use Prim.Native.String.{String, then, compare}
use Prim.Native.String.compare
use mathlib.Core.Path.{◌≡◌, refl, sym, ◌∙◌}
use mathlib.Core.Logic.{◌⊎◌, inl, inr}
use mathlib.Core.Bool.{true, false}
use native.Mathlib.Omega.{arith}
use text.Mathlib.TextEquality.{path_by_compare}
use text.Mathlib.TextPositions.{compare_refl}
use grantlayer.Prelude.Tests.{before}

flip : Ordering → Ordering
flip Ordering.lt = Ordering.gt
flip Ordering.eq = Ordering.eq
flip Ordering.gt = Ordering.lt

flip-then : (a b : Ordering) → then (flip a) (flip b) ≡ flip (then a b)
unfolding flip
flip-then Ordering.lt b = refl
flip-then Ordering.eq b = refl
flip-then Ordering.gt b = refl

flip_ℕ : (m n : ℕ) → compare_ℕ n m ≡ flip (compare_ℕ m n)
unfolding flip
flip_ℕ m n = ground arith

nil-before : (d : Char) (t : String) → compare String.[] (String.◌∷◌ d t) ≡ Ordering.lt
nil-before d t i = compare.nil-cons d t i

cons-after : (d : Char) (t : String) → compare (String.◌∷◌ d t) String.[] ≡ Ordering.gt
cons-after d t i = compare.cons-nil d t i

cons-cons :
    (c d : Char) (s t : String)
    → compare (String.◌∷◌ c s) (String.◌∷◌ d t) ≡ then (compare_ℕ (code c) (code d)) (compare s t)
cons-cons c d s t i = compare.cons-cons c d s t i

compare-flip : (s t : String) → compare t s ≡ flip (compare s t)
unfolding flip
compare-flip String.[] String.[] = refl
compare-flip String.[] (String.◌∷◌ d t) = simp (nil-before, cons-after)
compare-flip (String.◌∷◌ c s) String.[] = simp (nil-before, cons-after)
compare-flip (String.◌∷◌ c s) (String.◌∷◌ d t) =
    cons-cons d c t s
    ∙ (λ i. then (flip_ℕ (code c) (code d) i) (compare-flip s t i))
    ∙ flip-then (compare_ℕ (code c) (code d)) (compare s t)
    ∙ (λ i. flip (sym (cons-cons c d s t) i))

-- A text that is not before another is equal to it or behind it.
pub before-cases : (s t : String) → before s t ≡ false → (before t s ≡ true) ⊎ (s ≡ t)
unfolding flip
before-cases s t h = go (compare s t) refl
  where
    go : (o : Ordering) → compare s t ≡ o → (before t s ≡ true) ⊎ (s ≡ t)
    go Ordering.lt e = ground (arith, e)
    go Ordering.eq e = inr (path_by_compare s t e)
    go Ordering.gt e = inl (ground (arith, compare-flip s t, e))

-- No two texts are each before the other.
pub before-flip : (s t : String) → before s t ≡ true → before t s ≡ false
unfolding flip
before-flip s t h = ground (arith, compare-flip s t)

pub before_irrefl : (s : String) → before s s ≡ false
before_irrefl s = ground (arith, compare_refl s)
