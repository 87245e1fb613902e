-- ===== src/RateLimit/Simulation.antt =====
-- The deques of the rate limiter stand for the calls it has let in, step by step
-- (backend/src/core/rate_limiter.py).
use grantlayer.Prelude.{
  ℕ, ◌≤◌, ◌≡◌, refl, sym, ap, ◌∙◌, Bool, true, false, String, none, some, List, [], ◌∷◌, ◌++◌,
  arith, length, select, Bool-cases, Option-cases, inl, inr, All-map,
}
use grantlayer.Prelude.Int.{ℤ, pos, ltb_ℤ}
use grantlayer.RateLimit.{
  RateLimiter, Bucket, Call, same_key, key_of, limit_of, deque_of, store, evict, admit, refuse,
  check, check_within, effective_limit,
}
use grantlayer.RateLimit.Window.{Tracks, recent, Tracks-refuse, Tracks-admit, Tracks-length}
use grantlayer.RateLimit.Promise.{
  span_of, is_allowed, times, promise_within, promise, promises, decisions, IsChronological,
  deque_of-store, deque_of-store_other, times-snoc_same, times-snoc_other, same_key→eq,
  same_key_refl,
}

-- Every deque stands for the calls of its key that were let in.
unfoldable pub Simulates : RateLimiter → ℕ → List Call → Type 0
Simulates limiter at log =
    (key : String × String)
    → Tracks (span_of limiter) at (deque_of key limiter.storage) (times key log)

-- One check and one step of the promise: the answers agree, and the deques stand for the new log.
pub record Agrees (limiter : RateLimiter) (c : Call) (log : List Call) : Type 0 where
  pub answer : is_allowed (check limiter c).0 ≡ (promise limiter c log).0
  pub after : Simulates (check limiter c).1 c.now (promise limiter c log).1

Simulates-later :
    (limiter : RateLimiter) (at n : ℕ) (log : List Call)
    → at ≤ n
    → Simulates limiter at log
    → Simulates limiter n log
unfolding Simulates
Simulates-later limiter at n log le h key = record {
  past = All-map (deque_of key limiter.storage) (λ t k. omega arith) (h key).past;
  agrees = λ now k. (h key).agrees now (omega arith);
}

Simulates-store :
    (limiter : RateLimiter) (at : ℕ) (log log' : List Call) (c : Call) (dq : List ℕ)
    → at ≤ c.now
    → Simulates limiter at log
    → Tracks (span_of limiter) c.now dq (times (key_of c) log')
    → ((key : String × String) → same_key (key_of c) key ≡ false → times key log' ≡ times key log)
    → Simulates (record limiter { storage = store (key_of c) dq limiter.storage }) c.now log'
unfolding Simulates
Simulates-store limiter at log log' c dq le h k rest key =
    elim (Bool-cases (same_key (key_of c) key)) [
      | inl e ↦
          let same = same_key→eq (key_of c) key e in
          rw (sym same, deque_of-store (key_of c) dq limiter.storage) k
      | inr e ↦
          rw (deque_of-store_other (key_of c) key dq limiter.storage e, rest key e)
            (Simulates-later limiter at c.now log le h key)
    ]

refuse-is_allowed : (window now : ℕ) (dq : List ℕ) → is_allowed (refuse window now dq) ≡ false
unfolding is_allowed refuse
refuse-is_allowed window now [] = refl
refuse-is_allowed window now (t ∷ dq) = refl

module _ (limiter : RateLimiter) (at : ℕ) (log : List Call) (c : Call) (later : at ≤ c.now)
    (h : Simulates limiter at log) where
  admitted-Agrees :
      (limit : ℤ)
      → limit_of limiter c ≡ some limit
      → ltb_ℤ (pos (length (recent (span_of limiter) c.now (times (key_of c) log)))) limit ≡ true
      → Agrees limiter c log
  unfolding check check_within promise promise_within admit is_allowed Simulates
  admitted-Agrees limit e few =
      let track = h (key_of c) in
      let few' = ap (λ n. ltb_ℤ (pos n) limit) (Tracks-length track later) ∙ few in
      record {
        answer = rw (e, few', few) refl;
        after =
            rw (e, few', few)
              (Simulates-store limiter at log (log ++ c ∷ []) c
                (evict (span_of limiter) c.now (deque_of (key_of c) limiter.storage) ++ c.now ∷ [])
                later h
                (rw (times-snoc_same (key_of c) log c (same_key_refl (key_of c)))
                  (Tracks-admit track later))
                (λ key other. times-snoc_other key log c other));
      }

  refused-Agrees :
      (limit : ℤ)
      → limit_of limiter c ≡ some limit
      → ltb_ℤ (pos (length (recent (span_of limiter) c.now (times (key_of c) log)))) limit ≡ false
      → Agrees limiter c log
  unfolding check check_within promise promise_within admit is_allowed Simulates
  refused-Agrees limit e many =
      let track = h (key_of c) in
      let many' = ap (λ n. ltb_ℤ (pos n) limit) (Tracks-length track later) ∙ many in
      let kept = evict (span_of limiter) c.now (deque_of (key_of c) limiter.storage) in
      record {
        answer = rw (e, many', many) (refuse-is_allowed limiter.window_seconds c.now kept);
        after =
            rw (e, many', many)
              (Simulates-store limiter at log log c kept later h (Tracks-refuse track later)
                (λ key other. refl));
      }

  unlimited-Agrees : limit_of limiter c ≡ none → Agrees limiter c log
  unfolding check check_within promise promise_within is_allowed
  unlimited-Agrees e = record {
    answer = rw e refl;
    after = rw e (Simulates-later limiter at c.now log later h);
  }

  -- A check does what the promise says, and the deques go on standing for the calls let in.
  pub check-Agrees : Agrees limiter c log
  check-Agrees = elim (Option-cases (limit_of limiter c)) [
    | inl e ↦ unlimited-Agrees e
    | inr (limit, e) ↦
        let recents = recent (span_of limiter) c.now (times (key_of c) log) in
        elim (Bool-cases (ltb_ℤ (pos (length recents)) limit)) [
          | inl few ↦ admitted-Agrees limit e few
          | inr many ↦ refused-Agrees limit e many
        ]
  ]

-- Nothing was let in yet.
pub Simulates-new : (limiter : RateLimiter) → limiter.storage ≡ [] → Simulates limiter 0 []
unfolding Simulates times recent deque_of select evict
Simulates-new limiter e key = rw e (record { past = tt; agrees = λ now le. refl })

-- The promise is about the limits alone.
promises-store :
    (limiter : RateLimiter) (storage : List Bucket) (log calls : List Call)
    → promises (record limiter { storage = storage }) log calls ≡ promises limiter log calls
unfolding promises promise promise_within effective_limit
promises-store limiter storage log [] = refl
promises-store limiter storage log (d ∷ calls) =
    let out = promise limiter d log in
    ap (λ (l : List Bool). out.0 ∷ l) (promises-store limiter storage out.1 calls)

pub check-store :
    (limiter : RateLimiter) (c : Call)
    → (check limiter c).1 ≡ record limiter { storage = (check limiter c).1.storage }
unfolding check check_within
check-store limiter c = elim (Option-cases (limit_of limiter c)) [
  | inl e ↦ rw e refl
  | inr (limit, e) ↦ rw e refl
]

promises-check :
    (limiter : RateLimiter) (log calls : List Call) (c : Call)
    → promises (check limiter c).1 log calls ≡ promises limiter log calls
promises-check limiter log calls c =
    ap (λ l. promises l log calls) (check-store limiter c)
    ∙ promises-store limiter (check limiter c).1.storage log calls

decisions-from :
    (limiter : RateLimiter) (at : ℕ) (log calls : List Call)
    → IsChronological at calls
    → Simulates limiter at log
    → decisions limiter calls ≡ promises limiter log calls
unfolding decisions promises
decisions-from limiter at log [] order h = refl
decisions-from limiter at log (c ∷ calls) order h =
    let step = check-Agrees limiter at log c order.0 h in
    let next = (promise limiter c log).1 in
    rw
      (
        step.answer,
        decisions-from (check limiter c).1 c.now next calls order.1 step.after,
        promises-check limiter next calls c,
      )
      refl

-- On calls whose clock does not run backwards, a new limiter with any limits and window gives
-- exactly the answers of the promise: a call is let in while fewer calls of its key than its limit
-- were let in within the window that ends with it; a call without a limit is let in and not
-- counted, and a call that raises was not let in.
pub decisions-promises :
    (limiter : RateLimiter) (calls : List Call)
    → limiter.storage ≡ []
    → IsChronological 0 calls
    → decisions limiter calls ≡ promises limiter [] calls
decisions-promises limiter calls e order =
    decisions-from limiter 0 [] calls order (Simulates-new limiter e)
