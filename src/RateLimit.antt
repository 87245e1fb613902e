-- ===== src/RateLimit.antt =====
-- The rate limiter (backend/src/core/rate_limiter.py): RateLimiter with its deques in the process,
-- and RedisRateLimiter around it. A reading of the clock is a count of microseconds, where the
-- source has a float of seconds; Redis is what its calls return.
pub mod Window
pub mod Promise
pub mod Simulation
pub mod Bound
pub mod Retry
pub mod Fallback
use grantlayer.Prelude.{
  ℕ, ◌+◌, ◌-◌, String, Bool, true, false, not, ◌&&◌, Option, none, some, List, [], ◌∷◌, ◌++◌, ◌==◌,
  length, ltb, if◌then◌else◌, is_empty,
}
use Prim.Native.Nat.{◌*◌, ◌/◌, min, max}
use grantlayer.Prelude.Int.{ℤ, pos, ltb_ℤ}
use grantlayer.Result.{Result, ok, err, index_error}

-- The microseconds of a second.
abbrev pub second : ℕ
second = 1000000

-- A key (client_ip, group) with its deque, oldest first.
abbrev pub Bucket : Type 0
Bucket = (String × String) × List ℕ

pub record RateLimiter : Type 0 where
  pub auth_limit : ℤ
  pub api_limit : ℤ
  pub window_seconds : ℕ
  pub storage : List Bucket

-- `None` is unlimited.
unfoldable pub tier_limit : String → Option ℤ
tier_limit plan_tier =
    if plan_tier == "pro"
    then some (pos 1000)
    else if plan_tier == "enterprise"
    then none
    else some (pos 100)

unfoldable pub limit_for_tier : String → Option ℤ → Option ℤ
unfolding tier_limit
limit_for_tier plan_tier none = tier_limit plan_tier
limit_for_tier plan_tier (some override) = some override

-- `min(api_limit, tier_limit)`, unless the tier is unlimited.
unfoldable pub capped : ℤ → Option ℤ → Option ℤ
capped api_limit none = none
capped api_limit (some l) = some (if ltb_ℤ l api_limit then l else api_limit)

-- The limit that a check goes by.
unfoldable pub effective_limit : RateLimiter → String → String → Option ℤ → Option ℤ
unfolding limit_for_tier capped
effective_limit limiter group plan_tier override =
    if group == "auth"
    then some limiter.auth_limit
    else if group == "exercise"
    then limit_for_tier plan_tier override
    else capped limiter.api_limit (limit_for_tier plan_tier override)

abbrev pub same_key : String × String → String × String → Bool
same_key a b = a.0 == b.0 && a.1 == b.1

-- `_storage.get(key)`, or the new deque.
unfoldable pub deque_of : String × String → List Bucket → List ℕ
deque_of key [] = []
deque_of key (b ∷ storage) =
    let rest = deque_of key storage in if same_key b.0 key then b.1 else rest

unfoldable pub store : String × String → List ℕ → List Bucket → List Bucket
store key dq [] = (key, dq) ∷ []
store key dq (b ∷ storage) =
    let rest = store key dq storage in if same_key b.0 key then (b.0, dq) ∷ storage else b ∷ rest

-- `while dq and dq[0] < now - window: dq.popleft()`
unfoldable pub evict : ℕ → ℕ → List ℕ → List ℕ
evict span now [] = []
evict span now (t ∷ ts) =
    let rest = evict span now ts in if ltb (t + span) now then rest else t ∷ ts

-- `int(window - (now - dq[0])) + 1`, within 1 and the window. What was not evicted makes the
-- difference no less than 0.
unfoldable pub retry_after : ℕ → ℕ → ℕ → ℕ
retry_after window now oldest = max 1 (min window ((oldest + window * second - now) / second + 1))

-- The refusal, which reads the oldest entry.
unfoldable pub refuse : ℕ → ℕ → List ℕ → Result (Bool × ℕ)
unfolding retry_after
refuse window now [] = err index_error
refuse window now (oldest ∷ dq) = ok (false, retry_after window now oldest)

-- The part of a check that holds the lock: what it returns, and the deque after it.
unfoldable pub admit : ℤ → ℕ → ℕ → List ℕ → Result (Bool × ℕ) × List ℕ
unfolding refuse
admit limit window now dq =
    let kept = evict (window * second) now dq in
    if ltb_ℤ (pos (length kept)) limit
    then (ok (true, 0), kept ++ now ∷ [])
    else (refuse window now kept, kept)

-- The arguments of a check.
pub record Call : Type 0 where
  pub client_ip : String
  pub group : String
  pub now : ℕ
  pub plan_tier : String
  pub rate_limit_override : Option ℤ

abbrev pub key_of : Call → String × String
key_of call = (call.client_ip, call.group)

abbrev pub limit_of : RateLimiter → Call → Option ℤ
limit_of limiter call = effective_limit limiter call.group call.plan_tier call.rate_limit_override

unfoldable pub check_within : RateLimiter → Call → Option ℤ → Result (Bool × ℕ) × RateLimiter
unfolding admit deque_of store
check_within limiter call none = (ok (true, 0), limiter)
check_within limiter call (some limit) =
    let out =
      admit limit limiter.window_seconds call.now (deque_of (key_of call) limiter.storage) in
    (out.0, record limiter { storage = store (key_of call) out.1 limiter.storage })

unfoldable pub check : RateLimiter → Call → Result (Bool × ℕ) × RateLimiter
unfolding check_within
check limiter call = check_within limiter call (limit_of limiter call)

unfoldable pub reset : RateLimiter → RateLimiter
reset limiter = record limiter { storage = [] }

-- RedisRateLimiter: the connection, if there is one, and the limiter in the process.
pub record RedisRateLimiter : Type 0 where
  pub redis_url : String
  pub connected : Bool
  pub fallback : RateLimiter

-- What `r.eval` of the script returns for a call and its limit, (allowed, retry), or `none` where
-- it raises.
abbrev pub Eval : Type 0
Eval = Call → ℤ → Option (Bool × ℕ)

-- `int(result[2])` is the script's retry, here no less than 0.
unfoldable pub redis_answer : ℕ → Option (Bool × ℕ) → Option (Bool × ℕ)
redis_answer window none = none
redis_answer window (some (true, retry)) = some (true, 0)
redis_answer window (some (false, retry)) = some (false, max 1 (min window retry))

unfoldable pub redis_check : Eval → RateLimiter → Call → Option (Bool × ℕ)
unfolding redis_answer
redis_check eval fallback call = elim (limit_of fallback call) [
  | none ↦ some (true, 0)
  | some limit ↦ redis_answer fallback.window_seconds (eval call limit)
]

-- A call that goes to the limiter in the process.
unfoldable pub fall_back : RedisRateLimiter → Call → Result (Bool × ℕ) × RedisRateLimiter
unfolding check
fall_back limiter call =
    let out = check limiter.fallback call in
    (out.0, record limiter { connected = false; fallback = out.1 })

unfoldable pub check_redis : Eval → RedisRateLimiter → Call → Result (Bool × ℕ) × RedisRateLimiter
unfolding redis_check fall_back
check_redis eval limiter call =
    if limiter.connected
    then elim (redis_check eval limiter.fallback call) [
      | none ↦ fall_back limiter call
      | some answer ↦ (ok answer, limiter)
    ]
    else fall_back limiter call

-- `live_redis_health`: `up` is whether a connection can be made, `pong` whether the ping returns.
unfoldable pub live_redis_health : Bool → Bool → RedisRateLimiter → String × RedisRateLimiter
live_redis_health up pong limiter =
    if is_empty limiter.redis_url
    then ("disabled", limiter)
    else if not limiter.connected && not up
    then ("unavailable", limiter)
    else if pong
    then ("ok", record limiter { connected = true })
    else ("unavailable", record limiter { connected = false })

unfoldable pub redis_status : RedisRateLimiter → String
redis_status limiter =
    if is_empty limiter.redis_url
    then "disabled"
    else if limiter.connected
    then "connected"
    else "unavailable"
