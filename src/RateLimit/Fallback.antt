-- ===== src/RateLimit/Fallback.antt =====
-- The rate limiter without its Redis (backend/src/core/rate_limiter.py).
use grantlayer.Prelude.{
  ℕ, ◌≡◌, refl, Bool, true, none, some, List, [], ◌∷◌, Bool-cases, Option-cases, inl, inr,
}
use grantlayer.Prelude.Int.{ℤ}
use grantlayer.Result.{Result, ok}
use grantlayer.RateLimit.{
  RateLimiter, RedisRateLimiter, Call, Eval, limit_of, check, check_within, check_redis,
  redis_check, redis_answer, fall_back,
}

-- What a sequence of calls gets, from the limiter in the process and from the one with Redis.
unfoldable pub answers : RateLimiter → List Call → List (Result (Bool × ℕ))
answers limiter [] = []
answers limiter (c ∷ calls) = let out = check limiter c in out.0 ∷ answers out.1 calls

unfoldable pub answers_redis : Eval → RedisRateLimiter → List Call → List (Result (Bool × ℕ))
answers_redis eval limiter [] = []
answers_redis eval limiter (c ∷ calls) =
    let out = check_redis eval limiter c in out.0 ∷ answers_redis eval out.1 calls

check_unlimited :
    (limiter : RateLimiter) (c : Call)
    → limit_of limiter c ≡ none
    → check limiter c ≡ (ok (true, 0), limiter)
unfolding check check_within
check_unlimited limiter c k = rw k refl

module _ (eval : Eval) (down : (c : Call) (l : ℤ) → eval c l ≡ none) where
  redis_unlimited :
      (limiter : RateLimiter) (c : Call)
      → limit_of limiter c ≡ none
      → redis_check eval limiter c ≡ some (true, 0)
  unfolding redis_check
  redis_unlimited limiter c k = rw (k, redis_check) refl

  redis_limited :
      (limiter : RateLimiter) (c : Call) (l : ℤ)
      → limit_of limiter c ≡ some l
      → redis_check eval limiter c ≡ none
  unfolding redis_check redis_answer
  redis_limited limiter c l k = rw (k, redis_check, down c l) refl

  -- Without Redis, a call is answered by the limiter in the process, whose deques go on.
  redis_down :
      (limiter : RedisRateLimiter) (c : Call)
      → ((check_redis eval limiter c).0 ≡ (check limiter.fallback c).0)
        × ((check_redis eval limiter c).1.fallback ≡ (check limiter.fallback c).1)
  unfolding check_redis fall_back
  redis_down limiter c = elim (Bool-cases limiter.connected) [
    | inl e ↦ elim (Option-cases (limit_of limiter.fallback c)) [
      | inl k ↦
          rw (e, redis_unlimited limiter.fallback c k, check_unlimited limiter.fallback c k)
            (refl, refl)
      | inr (l, k) ↦ rw (e, redis_limited limiter.fallback c l k) (refl, refl)
    ]
    | inr e ↦ rw e (refl, refl)
  ]

  redis_down-all :
      (limiter : RedisRateLimiter) (calls : List Call)
      → answers_redis eval limiter calls ≡ answers limiter.fallback calls
  unfolding answers answers_redis
  redis_down-all limiter [] = refl
  redis_down-all limiter (c ∷ calls) =
      let step = redis_down limiter c in
      rw (step.0, redis_down-all (check_redis eval limiter c).1 calls, step.1) refl

-- While every evaluation of the script raises, whether or not a connection was held at first, any
-- sequence of calls gets exactly the answers of the limiter in the process, waiting times included.
pub answers_redis-answers :
    (eval : Eval) (limiter : RedisRateLimiter) (calls : List Call)
    → ((c : Call) (l : ℤ) → eval c l ≡ none)
    → answers_redis eval limiter calls ≡ answers limiter.fallback calls
answers_redis-answers eval limiter calls down = redis_down-all eval down limiter calls
