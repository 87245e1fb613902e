-- ===== src/Examples/Limiter.antt =====
-- Runs of the rate limiter.
use grantlayer.Prelude.{
  ℕ, ◌≤◌, ◌≡◌, refl, true, false, none, some, List, [], ◌∷◌, arith, length, All, ◌<◌,
}
use Prim.Native.Nat.{max}
use grantlayer.Prelude.Int.{ℤ, pos, ◌≤ℤ◌}
use grantlayer.Result.{ok}
use grantlayer.RateLimit.{
  RateLimiter, RedisRateLimiter, Call, check, evict, deque_of, effective_limit,
}
use grantlayer.RateLimit.Promise.{IsChronological, span_of, decisions, promises, times, is_allowed}
use grantlayer.RateLimit.Simulation.{decisions-promises}
use grantlayer.RateLimit.Bound.{IsCapped, admitted, IsBounded, admitted-IsBounded}
use grantlayer.RateLimit.Retry.{check-retry_after}
use grantlayer.RateLimit.Fallback.{answers, answers_redis, answers_redis-answers}

-- Two calls in a minute.
abbrev small : RateLimiter
small = record { auth_limit = pos 2; api_limit = pos 5; window_seconds = 60; storage = [] }

abbrev login : ℕ → Call
login now = record {
  client_ip = "10.0.0.1";
  group = "auth";
  now = now;
  plan_tier = "free";
  rate_limit_override = none;
}

abbrev logins : List Call
logins = login 1000000 ∷ login 2000000 ∷ login 3000000 ∷ login 62500000 ∷ []

in_order : IsChronological 0 logins
in_order = (omega arith, (omega arith, (omega arith, (omega arith, tt))))

logins-decisions : decisions small logins ≡ true ∷ true ∷ false ∷ true ∷ []
unfolding decisions is_allowed check effective_limit evict
logins-decisions = refl

decisions-promises_example : decisions small logins ≡ promises small [] logins
decisions-promises_example = decisions-promises small logins refl in_order

login-limit : (now : ℕ) → effective_limit small "auth" "free" none ≡ some (pos 2)
unfolding effective_limit
login-limit now = refl

logins-IsCapped : IsCapped small ("10.0.0.1", "auth") 2 logins
unfolding effective_limit
logins-IsCapped =
    let two : (l : ℤ) × (some (pos 2) ≡ some l) × (l ≤ℤ pos 2) = (pos 2, refl, omega arith) in
    (λ e. two, (λ e. two, (λ e. two, (λ e. two, tt))))

admitted-IsBounded_example :
    IsBounded (span_of small) 2 (times ("10.0.0.1", "auth") (admitted small logins))
admitted-IsBounded_example =
    admitted-IsBounded small ("10.0.0.1", "auth") 2 logins refl in_order logins-IsCapped

-- Both calls of the minute were made.
abbrev full : RateLimiter
full = record small { storage = (("10.0.0.1", "auth"), 1000000 ∷ 2000000 ∷ []) ∷ [] }

full-limit : effective_limit full "auth" "free" none ≡ some (pos 2)
unfolding effective_limit
full-limit = refl

full-refused : (check full (login 3000000)).0 ≡ ok (false, 59)
unfolding check effective_limit evict
full-refused = refl

full-short : length (deque_of ("10.0.0.1", "auth") full.storage) ≤ 2
unfolding deque_of
full-short = omega arith

full-past : All (λ t. t < 3000000) (deque_of ("10.0.0.1", "auth") full.storage)
unfolding deque_of
full-past = (omega arith, (omega arith, tt))

check-retry_after_example :
    (1 ≤ 59)
    × (59 ≤ max 1 60)
    × ((check (check full (login 3000000)).1 (login 62000000)).0 ≡ ok (true, 0))
check-retry_after_example =
    check-retry_after full (login 3000000) (login 62000000) 2 59 full-limit full-limit refl
      full-short full-past full-refused (omega arith)

abbrev lost : RedisRateLimiter
lost = record { redis_url = "redis://cache:6379"; connected = true; fallback = small }

answers_redis-answers_example : answers_redis (λ c l. none) lost logins ≡ answers small logins
answers_redis-answers_example = answers_redis-answers (λ c l. none) lost logins (λ c l. refl)
