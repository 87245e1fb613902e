-- ===== src/Policy/Engine/Denials.antt =====
-- The loop over the candidates: what it returns, in terms of the grants that it was given.
use grantlayer.Prelude.{
  ℕ, ◌≡◌, refl, inl, inr, true, false, Option, none, some, List, [], ◌∷◌, arith, ltb, Any, All,
  Bool-cases,
}
use grantlayer.Result.{Error, Result, ok, err}
use grantlayer.Platform.{Platform, DateTime, aware, naive}
use grantlayer.Models.{Grant, AccessRequest, PolicyResult}
use grantlayer.Policy.Engine.{
  Assessment, skip, denial, approval, denied, limited, covers, assess_state, assess_until,
  assess_from, assess_dates, assess, scan, parse_iso, keep_first, no_match,
}
use grantlayer.Policy.Engine.Decision.{
  Permits, Names, assess_approval, assess-Permits, assess_approves,
}

-- A date that does not parse, or that names an instant.
abbrev pub HasZone : Option DateTime → Type 0
HasZone (some (naive t)) = ⊥
HasZone d = Unit

abbrev pub HasZones : Platform → Grant → Type 0
HasZones py grant =
    HasZone (parse_iso py grant.valid_from) × HasZone (parse_iso py grant.valid_until)

-- The four ways in which an assessment ends.
data Outcome (a : Result Assessment) : Type 0 where
  raised : (e : Error) → a ≡ err e → Outcome a
  skipped : a ≡ ok skip → Outcome a
  refused : (d : PolicyResult) → a ≡ ok (denial d) → Outcome a
  chose : (r : PolicyResult) → a ≡ ok (approval r) → Outcome a

outcome : (a : Result Assessment) → Outcome a
outcome (err e) = raised e refl
outcome (ok skip) = skipped refl
outcome (ok (denial d)) = refused d refl
outcome (ok (approval r)) = chose r refl

abbrev Denies : Option PolicyResult → Type 0
Denies none = Unit
Denies (some b) = b.approved ≡ false

Denies-keep_first :
    (best : Option PolicyResult) (d : PolicyResult)
    → Denies best
    → d.approved ≡ false
    → Denies (keep_first best d)
unfolding keep_first
Denies-keep_first none d b h = h
Denies-keep_first (some x) d b h = b

module _ (py : Platform) (request : AccessRequest) (now : ℕ) where
  -- A denying assessment denies, and names the grant.
  abbrev pub Refuses : Grant → PolicyResult → Type 0
  Refuses grant d =
      (assess py request now grant ≡ ok (denial d))
      × (d.approved ≡ false)
      × (d.matched_grant_id ≡ some grant.id)

  state_denial :
      (grant : Grant) (d : PolicyResult)
      → assess_state py request grant ≡ denial d
      → (d.approved ≡ false) × (d.matched_grant_id ≡ some grant.id)
  unfolding assess_state denied limited
  state_denial grant d h = ground arith

  dates_denial :
      (grant : Grant) (d : PolicyResult) (from until : Option DateTime)
      → assess_dates py request now grant from until ≡ ok (denial d)
      → (d.approved ≡ false) × (d.matched_grant_id ≡ some grant.id)
  unfolding assess_dates assess_from assess_until denied
  dates_denial grant d none until h = ground arith
  dates_denial grant d (some f) none h = ground arith
  dates_denial grant d (some (naive f)) (some u) h = ground arith
  dates_denial grant d (some (aware f)) (some (naive u)) h = ground arith
  dates_denial grant d (some (aware f)) (some (aware u)) h = ground (arith, state_denial grant d)

  pub assess_denial :
      (grant : Grant) (d : PolicyResult)
      → assess py request now grant ≡ ok (denial d)
      → Refuses grant d
  unfolding assess
  assess_denial grant d h =
      let dated =
        dates_denial grant d (parse_iso py grant.valid_from) (parse_iso py grant.valid_until)
          (ground arith) in
      (h, dated.0, dated.1)

  abbrev pub Chosen : PolicyResult → Grant → Type 0
  Chosen r grant = Permits py request now grant × Names py request now grant r

  pub scan_approved :
      (best : Option PolicyResult) (grants : List Grant) (r : PolicyResult)
      → Denies best
      → All (λ g. g.subject_id ≡ request.subject_id) grants
      → scan py request now best grants ≡ ok r
      → r.approved ≡ true
      → Any (Chosen r) grants
  unfolding scan no_match
  scan_approved none [] r b s h a = ground arith
  scan_approved (some x) [] r b s h a = ground arith
  scan_approved best (g ∷ rest) r b s h a = elim (outcome (assess py request now g)) [
    | raised e q ↦ ground arith
    | skipped q ↦ inr (scan_approved best rest r b s.1 (rw (q, scan) at h) a)
    | refused d q ↦ inr (
        scan_approved (keep_first best d) rest r
          (Denies-keep_first best d b (assess_denial g d q).1) s.1 (rw (q, scan) at h) a)
    | chose x q ↦ inl (assess_approval py request now g r s.0 (ground arith))
  ]

  -- Once a permitting grant is ahead, the loop either raises or approves.
  pub scan-Permits :
      (best : Option PolicyResult) (grants : List Grant) (r : PolicyResult)
      → Any (Permits py request now) grants
      → scan py request now best grants ≡ ok r
      → r.approved ≡ true
  unfolding scan
  scan-Permits best [] r h k = elim h [ ]
  scan-Permits best (g ∷ rest) r (inl here) k =
      let (x, e, a, m) = assess-Permits py request now g here in ground arith
  scan-Permits best (g ∷ rest) r (inr there) k = elim (outcome (assess py request now g)) [
    | raised e q ↦ ground arith
    | skipped q ↦ scan-Permits best rest r there (rw (q, scan) at k)
    | refused d q ↦ scan-Permits (keep_first best d) rest r there (rw (q, scan) at k)
    | chose x q ↦ ground (arith, assess_approves py request now g x q)
  ]

  -- What the candidates give as reasons to deny, in the order of the grants.
  denial_of : Result Assessment → List PolicyResult → List PolicyResult
  denial_of (ok (denial d)) rest = d ∷ rest
  denial_of a rest = rest

  unfoldable pub denials : List Grant → List PolicyResult
  unfolding denial_of
  denials [] = []
  denials (g ∷ rest) = denial_of (assess py request now g) (denials rest)

  -- The first of the reasons, or the answer that nothing matched.
  abbrev pub IsFirst : List PolicyResult → PolicyResult → Type 0
  IsFirst [] r = (r.matched_grant_id ≡ none) × (r.reason_code ≡ some "no_matching_grant")
  IsFirst (d ∷ rest) r = r ≡ d

  kept :
      (best : PolicyResult) (grants : List Grant) (r : PolicyResult)
      → scan py request now (some best) grants ≡ ok r
      → r.approved ≡ false
      → r ≡ best
  unfolding scan keep_first
  kept best [] r h a = ground arith
  kept best (g ∷ rest) r h a = elim (outcome (assess py request now g)) [
    | raised e q ↦ ground arith
    | skipped q ↦ kept best rest r (rw (q, scan) at h) a
    | refused d q ↦ kept best rest r (rw (q, scan) at h) a
    | chose x q ↦ ground (arith, assess_approves py request now g x q)
  ]

  pub scan_denied :
      (grants : List Grant) (r : PolicyResult)
      → scan py request now none grants ≡ ok r
      → r.approved ≡ false
      → IsFirst (denials grants) r
  unfolding scan keep_first denials denial_of no_match
  scan_denied [] r h a = ground arith
  scan_denied (g ∷ rest) r h a = elim (outcome (assess py request now g)) [
    | raised e q ↦ ground arith
    | skipped q ↦ rw (q, denial_of) (scan_denied rest r (rw (q, scan) at h) a)
    | refused d q ↦ rw (q, denial_of) (kept d rest r (rw (q, scan) at h) a)
    | chose x q ↦ ground (arith, assess_approves py request now g x q)
  ]

  dates_total :
      (grant : Grant) (from until : Option DateTime)
      → HasZone from
      → HasZone until
      → (a : Assessment) × (assess_dates py request now grant from until ≡ ok a)
  unfolding assess_dates assess_from assess_until
  dates_total grant none until hf hu = (skip, refl)
  dates_total grant (some f) none hf hu = (skip, refl)
  dates_total grant (some (naive f)) (some u) hf hu = absurd hf
  dates_total grant (some (aware f)) (some (naive u)) hf hu = absurd hu
  dates_total grant (some (aware f)) (some (aware u)) hf hu = elim (Bool-cases (ltb now f)) [
    | inl early ↦ rw early (_, refl)
    | inr started ↦ rw started (_, refl)
  ]

  assess_total :
      (grant : Grant) → HasZones py grant → (a : Assessment) × (assess py request now grant ≡ ok a)
  unfolding assess
  assess_total grant h = elim (Bool-cases (covers request grant)) [
    | inl c ↦
        rw c (
          dates_total grant (parse_iso py grant.valid_from) (parse_iso py grant.valid_until) h.0
            h.1)
    | inr c ↦ rw c (skip, refl)
  ]

  pub scan_total :
      (best : Option PolicyResult) (grants : List Grant)
      → All (HasZones py) grants
      → (r : PolicyResult) × (scan py request now best grants ≡ ok r)
  unfolding scan
  scan_total none [] h = (no_match request, refl)
  scan_total (some b) [] h = (b, refl)
  scan_total best (g ∷ rest) h = elim (outcome (assess py request now g)) [
    | raised e q ↦ let t = assess_total g h.0 in absurd (cc (q, t.1))
    | skipped q ↦ rw (q, scan) (scan_total best rest h.1)
    | refused d q ↦ rw (q, scan) (scan_total (keep_first best d) rest h.1)
    | chose x q ↦ rw (q, scan) (x, refl)
  ]
