-- ===== src/RateLimit/Retry.antt =====
-- What the rate limiter tells a caller it refuses, and what comes of waiting for that long
-- (backend/src/core/rate_limiter.py).
use grantlayer.Prelude.{
  ℕ, ◌+◌, ◌≤◌, ◌<◌, ◌≡◌, refl, sym, ap, true, false, some, List, [], ◌∷◌, arith, length, ltb, All,
  Bool-cases, inl, inr,
}
use Prim.Native.Nat.{◌*◌, max}
use grantlayer.Prelude.Int.{pos, ltb_ℤ}
use grantlayer.Result.{ok, ok-inj}
use grantlayer.RateLimit.{
  RateLimiter, Call, second, key_of, limit_of, deque_of, evict, retry_after, refuse, admit, check,
  check_within, effective_limit,
}
use grantlayer.RateLimit.Promise.{deque_of-store}

evict-length : (span now : ℕ) (dq : List ℕ) → length (evict span now dq) ≤ length dq
unfolding evict
evict-length span now [] = omega arith
evict-length span now (t ∷ ts) = elim (Bool-cases (ltb (t + span) now)) [
  | inl e ↦ rw e (omega (arith, evict-length span now ts))
  | inr e ↦ rw e (omega arith)
]

-- What is kept has not left the window.
evict-oldest :
    (span now oldest : ℕ) (dq rest : List ℕ)
    → evict span now dq ≡ oldest ∷ rest
    → All (λ t. t < now) dq
    → (oldest < now) × (now ≤ oldest + span)
unfolding evict
evict-oldest span now oldest [] rest e h = absurd (ground arith)
evict-oldest span now oldest (t ∷ ts) rest e h = elim (Bool-cases (ltb (t + span) now)) [
  | inl gone ↦ evict-oldest span now oldest ts rest (rw gone at e) h.1
  | inr kept ↦
      let past = h.0 in let same : t ≡ oldest = ground arith in (ground arith, ground arith)
]

retry_after-bounds :
    (window now oldest : ℕ)
    → oldest < now
    → now ≤ oldest + window * second
    → (1 ≤ retry_after window now oldest)
      × (retry_after window now oldest ≤ max 1 window)
      × (oldest + window * second < now + retry_after window now oldest * second)
unfolding retry_after
retry_after-bounds window now oldest past recent = (omega arith, omega arith, omega arith)

refuse-oldest :
    (window now retry : ℕ) (dq : List ℕ)
    → refuse window now dq ≡ ok (false, retry)
    → (oldest : ℕ) × (rest : List ℕ) × (dq ≡ oldest ∷ rest)
      × (retry ≡ retry_after window now oldest)
unfolding refuse
refuse-oldest window now retry [] e = absurd (ground arith)
refuse-oldest window now retry (t ∷ ts) e = (t, ts, refl, sym (ap (λ p. p.1) (ok-inj e)))

-- When the oldest entry has left the window, one more fits.
evict-room :
    (span now' oldest limit : ℕ) (rest : List ℕ)
    → length (oldest ∷ rest) ≤ limit
    → oldest + span < now'
    → ltb_ℤ (pos (length (evict span now' (oldest ∷ rest)))) (pos limit) ≡ true
unfolding evict
evict-room span now' oldest limit rest short gone =
    let e : ltb (oldest + span) now' ≡ true = ground arith in
    rw e (ground (arith, evict-length span now' rest))

-- The part of a check under the lock, for one limit.
module _ (limit window now : ℕ) (dq : List ℕ) where
  admit-few :
      ltb_ℤ (pos (length (evict (window * second) now dq))) (pos limit) ≡ true
      → (admit (pos limit) window now dq).0 ≡ ok (true, 0)
  unfolding admit
  admit-few e = rw e refl

  admit-many :
      ltb_ℤ (pos (length (evict (window * second) now dq))) (pos limit) ≡ false
      → admit (pos limit) window now dq
        ≡ (refuse window now (evict (window * second) now dq), evict (window * second) now dq)
  unfolding admit
  admit-many e = rw e refl

-- The deque that a refusal leaves, when the time that it told has passed.
admit-wait :
    (limit window now now' retry oldest : ℕ) (dq rest : List ℕ)
    → length dq ≤ limit
    → All (λ t. t < now) dq
    → evict (window * second) now dq ≡ oldest ∷ rest
    → retry ≡ retry_after window now oldest
    → now + retry * second ≤ now'
    → (1 ≤ retry)
      × (retry ≤ max 1 window)
      × ((admit (pos limit) window now' (evict (window * second) now dq)).0 ≡ ok (true, 0))
admit-wait limit window now now' retry oldest dq rest short past same told wait =
    let old = evict-oldest (window * second) now oldest dq rest same past in
    let bounds = retry_after-bounds window now oldest old.0 old.1 in
    let size : length (oldest ∷ rest) ≡ length (evict (window * second) now dq) =
      ap length (sym same) in
    let fits : length (oldest ∷ rest) ≤ limit =
      omega (arith, size, evict-length (window * second) now dq, short) in
    let gone = rw (sym told) at bounds.2 in
    let later : oldest + window * second < now' = omega (arith, wait, gone) in
    (
      rw told bounds.0,
      rw told bounds.1,
      rw same (
          admit-few limit window now' (oldest ∷ rest)
            (evict-room (window * second) now' oldest limit rest fits later)),
    )

admit-retry :
    (limit window now now' retry : ℕ) (dq : List ℕ)
    → length dq ≤ limit
    → All (λ t. t < now) dq
    → (admit (pos limit) window now dq).0 ≡ ok (false, retry)
    → now + retry * second ≤ now'
    → (1 ≤ retry)
      × (retry ≤ max 1 window)
      × ((admit (pos limit) window now' (admit (pos limit) window now dq).1).0 ≡ ok (true, 0))
admit-retry limit window now now' retry dq short past e wait =
    let kept = evict (window * second) now dq in
    elim (Bool-cases (ltb_ℤ (pos (length kept)) (pos limit))) [
      | inl few ↦ let given = admit-few limit window now dq few in absurd (ground arith)
      | inr many ↦
          let out = admit-many limit window now dq many in
          let refused : refuse window now kept ≡ ok (false, retry) = rw out at e in
          let found = refuse-oldest window now retry kept refused in
          rw out (
            admit-wait limit window now now' retry found.0 dq found.1 short past found.2 found.3
              wait)
    ]

-- A refused caller whose bucket holds no more entries than its limit, all of them earlier, is told
-- to wait between 1 second and the window (1 second, if the window is none); and if no other call
-- of the bucket comes in between, the next call with the same limit, at least that long after, is
-- let in.
pub check-retry_after :
    (limiter : RateLimiter) (c c' : Call) (limit retry : ℕ)
    → limit_of limiter c ≡ some (pos limit)
    → limit_of limiter c' ≡ some (pos limit)
    → key_of c' ≡ key_of c
    → length (deque_of (key_of c) limiter.storage) ≤ limit
    → All (λ t. t < c.now) (deque_of (key_of c) limiter.storage)
    → (check limiter c).0 ≡ ok (false, retry)
    → c.now + retry * second ≤ c'.now
    → (1 ≤ retry)
      × (retry ≤ max 1 limiter.window_seconds)
      × ((check (check limiter c).1 c').0 ≡ ok (true, 0))
unfolding check check_within effective_limit
check-retry_after limiter c c' limit retry l l' key short past refused wait =
    let dq = deque_of (key_of c) limiter.storage in
    let refused' : (admit (pos limit) limiter.window_seconds c.now dq).0 ≡ ok (false, retry) =
      rw l at refused in
    let out =
      admit-retry limit limiter.window_seconds c.now c'.now retry dq short past refused' wait in
    (
      out.0,
      out.1,
      rw
          (
            l,
            l',
            key,
            deque_of-store (key_of c) (admit (pos limit) limiter.window_seconds c.now dq).1
                limiter.storage,
          )
          out.2,
    )
