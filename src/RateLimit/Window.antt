-- ===== src/RateLimit/Window.antt =====
-- One deque of the rate limiter against the plain list of the times it has let in
-- (backend/src/core/rate_limiter.py).
use grantlayer.Prelude.{
  ℕ, ◌+◌, ◌≤◌, ◌≡◌, refl, sym, ap, ◌∙◌, true, List, [], ◌∷◌, ◌++◌, arith, length, ltb, leb, select,
  select-append, All, All-append, All-map, Bool-cases, inl, inr,
}
use grantlayer.RateLimit.{evict}

-- The times within the window that ends at `now`.
unfoldable pub recent : ℕ → ℕ → List ℕ → List ℕ
recent span now ts = select (λ t. leb now (t + span)) ts

-- The deque stands for these times, from the instant `at` on.
pub record Tracks (span at : ℕ) (dq ts : List ℕ) : Type 0 where
  pub past : All (λ t. t ≤ at) dq
  pub agrees : (now : ℕ) → at ≤ now → evict span now dq ≡ recent span now ts

evict-All :
    (span now at : ℕ) (dq : List ℕ) → All (λ t. t ≤ at) dq → All (λ t. t ≤ at) (evict span now dq)
unfolding evict
evict-All span now at [] h = tt
evict-All span now at (t ∷ ts) h = elim (Bool-cases (ltb (t + span) now)) [
  | inl e ↦ rw e (evict-All span now at ts h.1)
  | inr e ↦ rw e h
]

-- What was evicted earlier is evicted later.
evict-evict :
    (span a b : ℕ) (dq : List ℕ) → a ≤ b → evict span b (evict span a dq) ≡ evict span b dq
unfolding evict
evict-evict span a b [] h = refl
evict-evict span a b (t ∷ ts) h = elim (Bool-cases (ltb (t + span) a)) [
  | inl e ↦
      let gone : ltb (t + span) b ≡ true = ground arith in rw (e, gone) (evict-evict span a b ts h)
  | inr e ↦ rw e refl
]

-- One time more, with none behind it.
evict-snoc :
    (span now n : ℕ) (dq : List ℕ)
    → All (λ t. t ≤ n) dq
    → evict span now (dq ++ n ∷ []) ≡ evict span now dq ++ recent span now (n ∷ [])
unfolding evict recent select
evict-snoc span now n [] h = ground arith
evict-snoc span now n (t ∷ ts) h = elim (Bool-cases (ltb (t + span) now)) [
  | inl e ↦ rw e (evict-snoc span now n ts h.1)
  | inr e ↦
      let le = h.0 in let stays : leb now (n + span) ≡ true = ground arith in rw (e, stays) refl
]

module _ {span at n : ℕ} {dq ts : List ℕ} (h : Tracks span at dq ts) (later : at ≤ n) where
  -- A refusal drops what has left the window.
  pub Tracks-refuse : Tracks span n (evict span n dq) ts
  Tracks-refuse = record {
    past = evict-All span n n dq (All-map dq (λ t le. omega arith) h.past);
    agrees = λ now le. evict-evict span n now dq le ∙ h.agrees now (omega arith);
  }

  -- An admission adds its time.
  pub Tracks-admit : Tracks span n (evict span n dq ++ n ∷ []) (ts ++ n ∷ [])
  unfolding recent
  Tracks-admit = record {
    past =
        (All-append (λ t. t ≤ n) (evict span n dq) (n ∷ [])).1
          (Tracks-refuse.past, (omega arith, tt));
    agrees = λ now le.
        evict-snoc span now n (evict span n dq) Tracks-refuse.past
        ∙ ap (λ l. l ++ recent span now (n ∷ [])) (Tracks-refuse.agrees now le)
        ∙ sym (select-append (λ t. leb now (t + span)) ts (n ∷ []));
  }

  pub Tracks-length : length (evict span n dq) ≡ length (recent span n ts)
  Tracks-length = ap length (h.agrees n later)
