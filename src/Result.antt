-- ===== src/Result.antt =====
-- Exceptions as values: what a call may raise, and sequencing that stops at the first one.
use grantlayer.Prelude.{arith, ◌⊎◌, inl, inr, String, Bool, true, false, ◌≡◌, refl}

pub data Error : Type 0 where
  -- ValueError, with its message
  value_error : String → Error
  -- core/validation.py's ValidationError, with the name of the field
  validation_error : String → Error
  -- the TypeError of comparing a datetime that has a time zone with one that has none
  type_error : Error
  -- SigningKeyNotRegisteredError
  key_not_registered : Error
  -- IndexError
  index_error : Error
  -- OverflowError
  overflow_error : Error
  -- any exception of the database layer
  database_error : Error

pub data Result {ℓ} (A : Type ℓ) : Type ℓ where
  ok : A → Result A
  err : Error → Result A

-- Sequencing: the next call runs on what the first returned, unless that raised.
infixl 5 ◌>>=◌ ◌>>◌
abbrev pub ◌>>=◌ {ℓ μ} : {V : Type ℓ} {W : Type μ} → Result V → (V → Result W) → Result W
err raised >>= next = err raised
ok value >>= next = next value

-- A check, and then what it guards.
abbrev pub ◌>>◌ {ℓ} : {W : Type ℓ} → Result (Unit {0}) → Result W → Result W
check >> next = check >>= (λ _. next)

abbrev pub raise_if : Bool → Error → Result (Unit {0})
raise_if true e = err e
raise_if false e = ok tt

-- A chain that succeeds has succeeded in its first step, and goes on from its value.
pub after {ℓ κ μ} :
    {A : Type ℓ} {B : Type κ} {P : Type μ} (m : Result A) (f : A → Result B) {b : B}
    → (m >>= f) ≡ ok b
    → ((a : A) → m ≡ ok a → f a ≡ ok b → P)
    → P
after (ok a) f e k = k a refl e
after (err x) f e k = absurd (ground arith)

pub ok-inj {ℓ} : {A : Type ℓ} {a b : A} → ok a ≡ ok b → a ≡ b
ok-inj e = ground arith

pub Result-cases {ℓ} :
    {A : Type ℓ} (r : Result A) → ((e : Error) × (r ≡ err e)) ⊎ ((a : A) × (r ≡ ok a))
Result-cases (ok a) = inr (a, refl)
Result-cases (err e) = inl (e, refl)
