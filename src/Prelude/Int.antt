-- ===== src/Prelude/Int.antt =====
-- Python's signed integers over the native numbers, and their decimal text.
use Prim.Native.Nat.{ℕ, zero, suc, ◌+◌, ◌/◌, ◌%◌, ◌≤◌, ◌<◌}
use Prim.Native.String.{String, ◌++◌}
use mathlib.Core.Path.{◌≡◌, refl}
use mathlib.Core.Bool.{Bool}
use native.Mathlib.Omega.{arith}
use grantlayer.Prelude.Tests.{ltb, if◌then◌else◌}

-- `negsuc n` is -(n + 1).
pub data ℤ : Type 0 where
  pos : ℕ → ℤ
  negsuc : ℕ → ℤ

abbrev pub pos_part : ℤ → ℕ
pos_part (pos n) = n
pos_part (negsuc n) = 0

abbrev pub neg_part : ℤ → ℕ
neg_part (pos n) = 0
neg_part (negsuc n) = suc n

infix 50 ◌≤ℤ◌
abbrev pub ◌≤ℤ◌ : ℤ → ℤ → Type 0
a ≤ℤ b = pos_part a + neg_part b ≤ pos_part b + neg_part a

abbrev pub ltb_ℤ : ℤ → ℤ → Bool
ltb_ℤ a b = ltb (pos_part a + neg_part b) (pos_part b + neg_part a)

-- The last decimal digit of a number.
pub digit : ℕ → String
digit d =
    if ltb d 1
    then "0"
    else if ltb d 2
    then "1"
    else if ltb d 3
    then "2"
    else if ltb d 4
    then "3"
    else if ltb d 5
    then "4"
    else if ltb d 6
    then "5"
    else if ltb d 7
    then "6"
    else if ltb d 8
    then "7"
    else if ltb d 9
    then "8"
    else "9"

-- The digits of `n`, on fuel; `n + 1` rounds are enough (`str_ℕ_lem`).
decimal : ℕ → ℕ → String
decimal zero n = ""
decimal (suc fuel) n =
    let rest = decimal fuel (n / 10) ++ digit (n % 10) in if ltb n 10 then digit n else rest

-- `str(n)`
unfoldable pub str_ℕ : ℕ → String
unfolding decimal digit
str_ℕ n = decimal (suc n) n

unfoldable pub str : ℤ → String
unfolding str_ℕ
str (pos n) = str_ℕ n
str (negsuc n) = "-" ++ str_ℕ (suc n)

decimal_fuel : (f g n : ℕ) → n < f → n < g → decimal f n ≡ decimal g n
unfolding decimal
decimal_fuel zero g n h k = elim h [ ]
decimal_fuel (suc f) zero n h k = elim k [ ]
decimal_fuel (suc f) (suc g) n h k = ground (arith, decimal_fuel f g (n / 10))

-- The fuel never runs out: the digits are those of the tenth, and the last one.
pub str_ℕ_lem : (n : ℕ) → str_ℕ n ≡ (if ltb n 10 then digit n else str_ℕ (n / 10) ++ digit (n % 10))
unfolding str_ℕ
str_ℕ_lem n = ground (arith, decimal_fuel n (suc (n / 10)) (n / 10))

str_examples : str (negsuc 41) ≡ "-42"
unfolding str
str_examples = refl
