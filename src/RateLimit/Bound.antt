-- ===== src/RateLimit/Bound.antt =====
-- How many calls the rate limiter lets in (backend/src/core/rate_limiter.py).
use grantlayer.Prelude.{
  ℕ, ◌+◌, ◌≤◌, ◌<◌, ◌≡◌, refl, sym, ap, ◌∙◌, ◌⊎◌, true, false, ◌&&◌, String, some, List, [], ◌∷◌,
  ◌++◌, arith, append_assoc, append-nil, length, length-append, leb, select, select-append,
  length-select_mono, Bool-cases, Option-cases, inl, inr, if◌then◌else◌, All, All-map,
}
use grantlayer.Prelude.Int.{ℤ, pos, ltb_ℤ, ◌≤ℤ◌}
use grantlayer.RateLimit.{RateLimiter, Call, same_key, key_of, limit_of, check, effective_limit}
use grantlayer.RateLimit.Window.{recent}
use grantlayer.RateLimit.Promise.{
  span_of, is_allowed, times, promise_within, promise, IsChronological, times-snoc_same,
  times-snoc_other, same_key→eq,
}
use grantlayer.RateLimit.Simulation.{Simulates, check-Agrees, check-store, Simulates-new}

-- The times within the window that begins at `from`.
unfoldable pub within : ℕ → ℕ → List ℕ → List ℕ
within span from ts = select (λ t. leb from t && leb t (from + span)) ts

-- The calls that the code lets in.
unfoldable pub admitted : RateLimiter → List Call → List Call
admitted limiter [] = []
admitted limiter (c ∷ calls) =
    let out = check limiter c in
    let rest = admitted out.1 calls in if is_allowed out.0 then c ∷ rest else rest

-- Every call of the key has a limit, of `m` at most.
abbrev pub IsCapped : RateLimiter → String × String → ℕ → List Call → Type 0
IsCapped limiter key m =
    All
      (λ c. same_key (key_of c) key ≡ true → (l : ℤ) × (limit_of limiter c ≡ some l) × (l ≤ℤ pos m))

-- No window has more than `m` of the times.
abbrev pub IsBounded : ℕ → ℕ → List ℕ → Type 0
IsBounded span m ts = (from : ℕ) → length (within span from ts) ≤ m

IsBounded-snoc :
    (span m n : ℕ) (ts : List ℕ)
    → IsBounded span m ts
    → length (recent span n ts) < m
    → IsBounded span m (ts ++ n ∷ [])
unfolding within recent select
IsBounded-snoc span m n ts h few from =
    rw
      (
        select-append (λ t. leb from t && leb t (from + span)) ts (n ∷ []),
        length-append (select (λ t. leb from t && leb t (from + span)) ts)
            (select (λ t. leb from t && leb t (from + span)) (n ∷ [])),
      )
      (elim (Bool-cases (leb from n && leb n (from + span))) [
        | inl e ↦
            let fits =
              length-select_mono (λ t. leb from t && leb t (from + span)) (λ t. leb n (t + span))
                (λ t k. ground arith) ts in
            rw e (omega arith)
        | inr e ↦ let old = h from in rw e (omega arith)
      ])

times-cons_same :
    (key : String × String) (c : Call) (calls : List Call)
    → same_key (key_of c) key ≡ true
    → times key (c ∷ calls) ≡ c.now ∷ times key calls
unfolding times select
times-cons_same key c calls h = rw h refl

times-cons_other :
    (key : String × String) (c : Call) (calls : List Call)
    → same_key (key_of c) key ≡ false
    → times key (c ∷ calls) ≡ times key calls
unfolding times select
times-cons_other key c calls h = rw h refl

module _ (key : String × String) (m : ℕ) where
  -- A call of another key changes nothing for this one.
  other-call :
      (limiter : RateLimiter) (c : Call) (log : List Call)
      → same_key (key_of c) key ≡ false
      → times key (promise limiter c log).1 ≡ times key log
  unfolding promise promise_within
  other-call limiter c log e = elim (Option-cases (limit_of limiter c)) [
    | inl k ↦ rw k refl
    | inr (l, k) ↦
        elim (Bool-cases
          (ltb_ℤ (pos (length (recent (span_of limiter) c.now (times (key_of c) log)))) l)) [
            | inl few ↦ rw (k, few) (times-snoc_other key log c e)
            | inr many ↦ rw (k, many) refl
          ]
  ]

  -- One of this key, with its limit: it is let in and counted where fewer were, and else refused.
  this-call :
      (limiter : RateLimiter) (c : Call) (log : List Call) (l : ℤ)
      → same_key (key_of c) key ≡ true
      → limit_of limiter c ≡ some l
      → l ≤ℤ pos m
      → (((promise limiter c log).0 ≡ true)
          × (times key (promise limiter c log).1 ≡ times key log ++ c.now ∷ [])
          × (length (recent (span_of limiter) c.now (times key log)) < m))
        ⊎ (((promise limiter c log).0 ≡ false) × ((promise limiter c log).1 ≡ log))
  unfolding promise promise_within
  this-call limiter c log l e k le =
      elim (Bool-cases
        (ltb_ℤ (pos (length (recent (span_of limiter) c.now (times (key_of c) log)))) l)) [
          | inl few ↦
              let same = same_key→eq (key_of c) key e in
              let few' =
                ap (λ k. ltb_ℤ (pos (length (recent (span_of limiter) c.now (times k log)))) l)
                  (sym same)
                ∙ few in
              inl (rw (k, few) (refl, times-snoc_same key log c e, ground (arith, le)))
          | inr many ↦ inr (rw (k, many) (refl, refl))
        ]

check-window : (limiter : RateLimiter) (c : Call) → span_of (check limiter c).1 ≡ span_of limiter
check-window limiter c = ap span_of (check-store limiter c)

check-limit_of :
    (limiter : RateLimiter) (c d : Call) → limit_of (check limiter c).1 d ≡ limit_of limiter d
unfolding effective_limit
check-limit_of limiter c d = ap (λ l. limit_of l d) (check-store limiter c)

module _ (key : String × String) (m : ℕ) where
  IsCapped-check :
      (limiter : RateLimiter) (c : Call) (calls : List Call)
      → IsCapped limiter key m calls
      → IsCapped (check limiter c).1 key m calls
  IsCapped-check limiter c calls =
      All-map calls (λ d h e. let (l, k, le) = h e in (l, check-limit_of limiter c d ∙ k, le))

  times-admitted_none :
      (limiter : RateLimiter) (log : List Call)
      → times key log ++ times key (admitted limiter []) ≡ times key log
  unfolding admitted times select
  times-admitted_none limiter log = append-nil (times key log)

  -- What one call adds to the times let in.
  times-admitted_in :
      (limiter : RateLimiter) (c : Call) (calls : List Call)
      → is_allowed (check limiter c).0 ≡ true
      → same_key (key_of c) key ≡ true
      → times key (admitted limiter (c ∷ calls))
        ≡ c.now ∷ times key (admitted (check limiter c).1 calls)
  unfolding admitted
  times-admitted_in limiter c calls h e =
      rw h (times-cons_same key c (admitted (check limiter c).1 calls) e)

  times-admitted_out :
      (limiter : RateLimiter) (c : Call) (calls : List Call)
      → is_allowed (check limiter c).0 ≡ false
      → times key (admitted limiter (c ∷ calls)) ≡ times key (admitted (check limiter c).1 calls)
  unfolding admitted
  times-admitted_out limiter c calls h = rw h refl

  times-admitted_other :
      (limiter : RateLimiter) (c : Call) (calls : List Call)
      → same_key (key_of c) key ≡ false
      → times key (admitted limiter (c ∷ calls)) ≡ times key (admitted (check limiter c).1 calls)
  unfolding admitted
  times-admitted_other limiter c calls e = elim (Bool-cases (is_allowed (check limiter c).0)) [
    | inl h ↦ rw h (times-cons_other key c (admitted (check limiter c).1 calls) e)
    | inr h ↦ rw h refl
  ]

  -- A check keeps the bound on the times of its key, of what was let in before and is after.
  admitted-from :
      (limiter : RateLimiter) (at : ℕ) (log calls : List Call)
      → IsChronological at calls
      → Simulates limiter at log
      → IsCapped limiter key m calls
      → IsBounded (span_of limiter) m (times key log)
      → IsBounded (span_of limiter) m (times key log ++ times key (admitted limiter calls))
  admitted-from limiter at log [] order h capped bounded =
      rw (times-admitted_none limiter log) bounded
  admitted-from limiter at log (c ∷ calls) order h capped bounded =
      let step = check-Agrees limiter at log c order.0 h in
      let limiter' = (check limiter c).1 in
      let log' = (promise limiter c log).1 in
      let rest = times key (admitted limiter' calls) in
      let next : IsBounded (span_of limiter) m (times key log')
          → IsBounded (span_of limiter) m (times key log' ++ rest) =
        λ b.
          let ih =
            admitted-from limiter' c.now log' calls order.1 step.after
              (IsCapped-check limiter c calls capped.1) (rw (check-window limiter c) b) in
          rw (check-window limiter c) at ih in
      elim (Bool-cases (same_key (key_of c) key)) [
        | inl e ↦
            let (l, k, le) = capped.0 e in
            elim (this-call key m limiter c log l e k le) [
              | inl (given, snoc, few) ↦
                  let one = IsBounded-snoc (span_of limiter) m c.now (times key log) bounded few in
                  let out = next (rw snoc one) in
                  rw
                    (
                      times-admitted_in limiter c calls (step.answer ∙ given) e,
                      sym (append_assoc (times key log) (c.now ∷ []) rest),
                      sym snoc,
                    )
                    out
              | inr (refused, kept) ↦
                  let out = next (rw kept bounded) in
                  let out' = rw kept at out in
                  rw (times-admitted_out limiter c calls (step.answer ∙ refused)) out'
            ]
        | inr e ↦
            let same = other-call key m limiter c log e in
            let out = next (rw same bounded) in
            let out' = rw same at out in rw (times-admitted_other limiter c calls e) out'
      ]

-- Where every call of a key has a limit of at most `m` and the clock does not run backwards, a new
-- limiter lets in no more than `m` calls of that key within any window, wherever it begins.
pub admitted-IsBounded :
    (limiter : RateLimiter) (key : String × String) (m : ℕ) (calls : List Call)
    → limiter.storage ≡ []
    → IsChronological 0 calls
    → IsCapped limiter key m calls
    → IsBounded (span_of limiter) m (times key (admitted limiter calls))
unfolding times select within
admitted-IsBounded limiter key m calls e order capped =
    admitted-from key m limiter 0 [] calls order (Simulates-new limiter e) capped
      (λ from. omega arith)
