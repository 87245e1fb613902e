-- ===== src/RateLimit/Promise.antt =====
-- What the rate limiter promises, on the list of the calls it has let in, and that its deques keep
-- the promise (backend/src/core/rate_limiter.py).
use grantlayer.Prelude.{
  ℕ, ◌≤◌, ◌≡◌, refl, ap, Bool, true, false, String, Option, none, some, List, [], ◌∷◌, ◌++◌, map,
  arith, eq_iff, length, select, Bool-cases, inl, inr, if◌then◌else◌,
}
use Prim.Native.Nat.{◌*◌}
use grantlayer.Prelude.Int.{ℤ, pos, ltb_ℤ}
use grantlayer.Result.{Result, ok, err}
use grantlayer.RateLimit.{
  RateLimiter, Bucket, Call, second, same_key, key_of, limit_of, deque_of, store, check,
}
use grantlayer.RateLimit.Window.{recent}

abbrev pub span_of : RateLimiter → ℕ
span_of limiter = limiter.window_seconds * second

-- A call that raised was not let in.
unfoldable pub is_allowed : Result (Bool × ℕ) → Bool
is_allowed (ok (b, retry)) = b
is_allowed (err e) = false

-- The times at which calls of the key came.
unfoldable pub times : String × String → List Call → List ℕ
times key calls = map (λ c. c.now) (select (λ c. same_key (key_of c) key) calls)

-- A call is let in while fewer than its limit were, in the window that ends with it.
unfoldable pub promise_within : RateLimiter → Call → List Call → Option ℤ → Bool × List Call
promise_within limiter call log none = (true, log)
promise_within limiter call log (some limit) =
    let count = length (recent (span_of limiter) call.now (times (key_of call) log)) in
    if ltb_ℤ (pos count) limit then (true, log ++ call ∷ []) else (false, log)

unfoldable pub promise : RateLimiter → Call → List Call → Bool × List Call
unfolding promise_within
promise limiter call log = promise_within limiter call log (limit_of limiter call)

-- The answers to a sequence of calls: by the promise, and by the code.
unfoldable pub promises : RateLimiter → List Call → List Call → List Bool
promises limiter log [] = []
promises limiter log (c ∷ calls) =
    let out = promise limiter c log in out.0 ∷ promises limiter out.1 calls

unfoldable pub decisions : RateLimiter → List Call → List Bool
decisions limiter [] = []
decisions limiter (c ∷ calls) =
    let out = check limiter c in is_allowed out.0 ∷ decisions out.1 calls

-- The clock does not run backwards.
abbrev pub IsChronological : ℕ → List Call → Type 0
IsChronological at [] = Unit
IsChronological at (c ∷ calls) = (at ≤ c.now) × IsChronological c.now calls

pub deque_of-store :
    (key : String × String) (dq : List ℕ) (storage : List Bucket)
    → deque_of key (store key dq storage) ≡ dq
unfolding deque_of store
deque_of-store key dq [] = ground (arith, eq_iff key.0 key.0, eq_iff key.1 key.1)
deque_of-store key dq (b ∷ storage) = elim (Bool-cases (same_key b.0 key)) [
  | inl e ↦ rw (e, e) refl
  | inr e ↦ rw (e, e) (deque_of-store key dq storage)
]

same_key-other :
    (a key other : String × String)
    → same_key a key ≡ true
    → same_key key other ≡ false
    → same_key a other ≡ false
same_key-other a key other h k = ground (
  arith,
  eq_iff a.0 key.0,
  eq_iff a.1 key.1,
  eq_iff a.0 other.0,
  eq_iff a.1 other.1,
  eq_iff key.0 other.0,
  eq_iff key.1 other.1,
)

pub deque_of-store_other :
    (key other : String × String) (dq : List ℕ) (storage : List Bucket)
    → same_key key other ≡ false
    → deque_of other (store key dq storage) ≡ deque_of other storage
unfolding deque_of store
deque_of-store_other key other dq [] h = rw h refl
deque_of-store_other key other dq (b ∷ storage) h = elim (Bool-cases (same_key b.0 key)) [
  | inl e ↦ rw (e, same_key-other b.0 key other e h) refl
  | inr e ↦ rw (e, deque_of-store_other key other dq storage h) refl
]

pub same_key→eq : (a b : String × String) → same_key a b ≡ true → a ≡ b
same_key→eq a b h = ground (arith, eq_iff a.0 b.0, eq_iff a.1 b.1)

pub times-snoc_same :
    (key : String × String) (log : List Call) (c : Call)
    → same_key (key_of c) key ≡ true
    → times key (log ++ c ∷ []) ≡ times key log ++ c.now ∷ []
unfolding times select
times-snoc_same key [] c h = rw h refl
times-snoc_same key (d ∷ log) c h = elim (Bool-cases (same_key (key_of d) key)) [
  | inl e ↦ rw e (ap (λ l. d.now ∷ l) (times-snoc_same key log c h))
  | inr e ↦ rw e (times-snoc_same key log c h)
]

pub times-snoc_other :
    (key : String × String) (log : List Call) (c : Call)
    → same_key (key_of c) key ≡ false
    → times key (log ++ c ∷ []) ≡ times key log
unfolding times select
times-snoc_other key [] c h = rw h refl
times-snoc_other key (d ∷ log) c h = elim (Bool-cases (same_key (key_of d) key)) [
  | inl e ↦ rw e (ap (λ l. d.now ∷ l) (times-snoc_other key log c h))
  | inr e ↦ rw e (times-snoc_other key log c h)
]

pub same_key_refl : (a : String × String) → same_key a a ≡ true
same_key_refl a = ground (arith, eq_iff a.0 a.0, eq_iff a.1 a.1)
